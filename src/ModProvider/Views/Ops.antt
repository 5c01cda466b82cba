-- ===== src/ModProvider/Views/Ops.antt =====
-- The operations of a change, read as what happens to the instances of the resource.
use pulumi_terraform_module.Prelude.{
  ℕ, zero, suc, ◌≡◌, ◌&&◌, leb, Option, none, some, List, [], ◌∷◌, if◌then◌else◌,
}
use pulumi_terraform_module.Prelude.Outcome.{ok, ok-injective}
use pulumi_terraform_module.TfSandbox.Plan.{
  ChangeKind, no_op, update, replace, replace_destroy_before_create, create, delete,
}
use pulumi_terraform_module.ModProvider.Views.{
  Op, same, updated, created, deleted, create_replacement, replaced, delete_replaced, view_step_op,
}

-- How many instances there are after the operation, where it can be carried out.
abbrev pub apply_op : Op → ℕ → Option ℕ
apply_op same (suc n) = some (suc n)
apply_op updated (suc n) = some (suc n)
apply_op created zero = some 1
apply_op deleted (suc zero) = some 0
apply_op create_replacement n = some (suc n)
apply_op replaced n = some n
apply_op delete_replaced (suc n) = some n
apply_op _ _ = none

-- All operations in turn, with the number of instances between the bounds after each.
abbrev pub apply_ops : ℕ → ℕ → List Op → ℕ → Option ℕ
apply_ops lo hi [] n = some n
apply_ops lo hi (op ∷ ops) n = elim (apply_op op n) [
  | none ↦ none
  | some m ↦ if leb lo m && leb m hi then apply_ops lo hi ops m else none
]

abbrev pub live_before : ChangeKind → ℕ
live_before create = 0
live_before _ = 1

abbrev pub live_after : ChangeKind → ℕ
live_after delete = 0
live_after _ = 1

-- Only the replacement that destroys first may leave none meanwhile, and only the one that creates
-- first may have two.
abbrev pub fewest : ChangeKind → ℕ
fewest delete = 0
fewest replace_destroy_before_create = 0
fewest _ = 1

abbrev pub most : ChangeKind → ℕ
most replace = 2
most _ = 1

-- The operations reported for a change can be carried out one after the other, from the instances that
-- there are before it to those after it. A replacement that creates first always leaves an instance,
-- one that destroys first never has two.
pub view_step_op-apply_ops :
    (k : ChangeKind) (ops : List Op)
    → view_step_op k ≡ ok ops
    → apply_ops (fewest k) (most k) ops (live_before k) ≡ some (live_after k)
unfolding view_step_op
view_step_op-apply_ops no_op ops h = rw (← ok-injective _ ops h)
view_step_op-apply_ops update ops h = rw (← ok-injective _ ops h)
view_step_op-apply_ops replace ops h = rw (← ok-injective _ ops h)
view_step_op-apply_ops replace_destroy_before_create ops h = rw (← ok-injective _ ops h)
view_step_op-apply_ops create ops h = rw (← ok-injective _ ops h)
view_step_op-apply_ops delete ops h = rw (← ok-injective _ ops h)
view_step_op-apply_ops _ ops h = cc
