-- ===== src/Tests/MapRepl.antt =====
-- A `MapRepl` that is written out, and numbers in strokes.
use pulumi_terraform_module.Prelude.{ℕ, zero, suc, String, ◌≡◌, refl, Option, none, some, ap}
use pulumi_terraform_module.Prelude.Outcome.{Outcome, ok, err, panic, ◌>>=◌}
use pulumi_terraform_module.Pulumi.Json.{Json, Items, Members}
use pulumi_terraform_module.Pulumi.Value.{PropertyValue, PropertyMap, Values, object, string, entry}
use pulumi_terraform_module.TfSandbox.Locals.{Sdk, Locals, Callback}
use pulumi_terraform_module.TfSandbox.Locals.Numbered.{IsDecimal}
use pulumi_terraform_module.TfSandbox.Locals.Seeded.{IsMapRepl, map_items, map_fields}

-- A replacement is taken; otherwise `under` maps the elements.
abbrev chosen :
    Outcome (Option Json × Locals) → (Locals → Outcome (Json × Locals)) → Outcome (Json × Locals)
chosen (ok (none, l)) under = under l
chosen (ok (some j, l)) under = ok (j, l)
chosen (err e) under = err e
chosen panic under = panic

abbrev unary : ℕ → String
unary zero = ""
unary (suc n) = String.◌∷◌ "I" (unary n)

unfoldable mutual
  pub repl : Callback → PropertyValue → Locals → Outcome (Json × Locals)
  repl f PropertyValue.null l = chosen (f PropertyValue.null l) (λ k. ok (Json.null, k))
  repl f (PropertyValue.bool b) l = chosen (f (PropertyValue.bool b) l) (λ k. ok (Json.bool b, k))
  repl f (PropertyValue.number n) l =
      chosen (f (PropertyValue.number n) l) (λ k. ok (Json.number (unary n), k))
  repl f (string s) l = chosen (f (string s) l) (λ k. ok (Json.string s, k))
  repl f (PropertyValue.array xs) l =
      chosen (f (PropertyValue.array xs) l)
        (λ k. repl_items f xs k >>= λ r. ok (Json.array (r.0), r.1))
  repl f (object m) l =
      chosen (f (object m) l) (λ k. repl_fields f m k >>= λ r. ok (Json.object (r.0), r.1))
  repl f v l = chosen (f v l) (λ k. panic)

  repl_items : Callback → Values → Locals → Outcome (Items × Locals)
  repl_items f Values.nil l = ok (Items.nil, l)
  repl_items f (Values.cons x xs) l =
      repl f x l >>= λ r. repl_items f xs (r.1) >>= λ rs. ok (Items.cons (r.0) (rs.0), rs.1)

  repl_fields : Callback → PropertyMap → Locals → Outcome (Members × Locals)
  repl_fields f PropertyMap.end l = ok (Members.end, l)
  repl_fields f (entry k v m) l =
      repl f v l >>= λ r. repl_fields f m (r.1) >>= λ rs. ok (Members.member k (r.0) (rs.0), rs.1)

unfoldable pub sdk : Sdk
unfolding repl
sdk = record {
  map_repl = repl;
  map_repl_fields = repl_fields;
  decimal = unary;
  number_text = unary;
}

bind_congr :
    {A B : Type 0} (o : Outcome A) (f g : A → Outcome B)
    → ((a : A) → f a ≡ g a)
    → (o >>= f) ≡ (o >>= g)
bind_congr (ok a) f g h = h a
bind_congr (err e) f g h = refl
bind_congr panic f g h = refl

repl_items_lem :
    (f : Callback) (xs : Values) (l : Locals) → repl_items f xs l ≡ map_items (repl f) xs l
unfolding repl
repl_items_lem f Values.nil l = refl
repl_items_lem f (Values.cons x xs) l =
    bind_congr (repl f x l) _ _
      λ r. ap (λ o. o >>= λ rs. ok (Items.cons (r.0) (rs.0), rs.1)) (repl_items_lem f xs (r.1))

repl_fields_lem :
    (f : Callback) (m : PropertyMap) (l : Locals) → repl_fields f m l ≡ map_fields (repl f) m l
unfolding repl
repl_fields_lem f PropertyMap.end l = refl
repl_fields_lem f (entry k v m) l =
    bind_congr (repl f v l) _ _ λ r.
      ap (λ o. o >>= λ rs. ok (Members.member k (r.0) (rs.0), rs.1)) (repl_fields_lem f m (r.1))

repl_replaced :
    (f : Callback) (v : PropertyValue) (l l' : Locals) (j : Json)
    → f v l ≡ ok (some j, l')
    → repl f v l ≡ ok (j, l')
unfolding repl
repl_replaced f PropertyValue.null l l' j h = rw h refl
repl_replaced f (PropertyValue.bool b) l l' j h = rw h refl
repl_replaced f (PropertyValue.number n) l l' j h = rw h refl
repl_replaced f (string s) l l' j h = rw h refl
repl_replaced f (PropertyValue.array xs) l l' j h = rw h refl
repl_replaced f (object m) l l' j h = rw h refl
repl_replaced f _ l l' j h = rw h refl

pub sdk-IsMapRepl : IsMapRepl sdk
unfolding sdk repl
sdk-IsMapRepl = record {
  replaced = repl_replaced;
  at_null = λ f l l' h. rw h refl;
  at_bool = λ f b l l' h. rw h refl;
  at_number = λ f n l l' h. rw h refl;
  at_string = λ f s l l' h. rw h refl;
  at_array = λ f xs l l' h. rw (h, repl_items_lem f xs l') refl;
  at_object = λ f m l l' h. rw (h, repl_fields_lem f m l') refl;
  at_fields = repl_fields_lem;
}

unary-injective : (i j : ℕ) → unary i ≡ unary j → i ≡ j
unary-injective zero zero h = refl
unary-injective zero (suc j) h = cc
unary-injective (suc i) zero h = cc
unary-injective (suc i) (suc j) h =
    let less : unary i ≡ unary j = cc h in ap suc (unary-injective i j less)

pub sdk-IsDecimal : IsDecimal sdk
unfolding sdk
sdk-IsDecimal = unary-injective
