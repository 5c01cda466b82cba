-- ===== src/Pulumi/Json.antt =====
-- Decoded JSON, Go's `interface{}` after `json.Unmarshal`. A number keeps its text (`json.Number`).
use pulumi_terraform_module.Prelude.{
  ℕ, suc, String, ◌≡◌, Bool, Option, none, some, some-injective, Bool-cases, inl, inr, ◌==◌,
  if◌then◌else◌,
}

mutual
  pub data Json : Type 0 where
    null : Json
    bool : Bool → Json
    number : String → Json
    string : String → Json
    array : Items → Json
    object : Members → Json

  pub data Items : Type 0 where
    nil : Items
    cons : Json → Items → Items

  pub data Members : Type 0 where
    end : Members
    member : String → Json → Members → Members

-- `v, ok := m[k]` on a `map[string]interface{}`
unfoldable pub find : String → Members → Option Json
find k end = none
find k (member j v m) = if j == k then some v else find k m

-- `len` of a `[]interface{}`
abbrev pub count : Items → ℕ
count nil = 0
count (cons x xs) = suc (count xs)

-- The keys of a Go map are distinct, at every depth.
unfoldable mutual
  pub NodupMembers : Json → Type 0
  NodupMembers null = Unit
  NodupMembers (bool b) = Unit
  NodupMembers (number s) = Unit
  NodupMembers (string s) = Unit
  NodupMembers (array xs) = NodupItems xs
  NodupMembers (object m) = NodupFields m

  pub NodupItems : Items → Type 0
  NodupItems nil = Unit
  NodupItems (cons x xs) = NodupMembers x × NodupItems xs

  pub NodupFields : Members → Type 0
  NodupFields end = Unit
  NodupFields (member k v m) = (find k m ≡ none) × NodupMembers v × NodupFields m

pub NodupFields-find :
    (k : String) (m : Members) {v : Json} → NodupFields m → find k m ≡ some v → NodupMembers v
unfolding find NodupMembers
NodupFields-find k end u h = cc
NodupFields-find k (member j w m) {v} u h = elim (Bool-cases (j == k)) [
  | inl here ↦ rw (some-injective w v (rw (here, find) at h)) at (u.1)
  | inr there ↦ NodupFields-find k m u.2 (rw (there, find) at h)
]
