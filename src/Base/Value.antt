-- ===== src/Base/Value.antt =====
-- The values that `json.loads` and `yaml.safe_load` produce, with what Python's `==`, `isinstance`,
-- `in` and item access do on them. A dict is an association list; its keys are text.
use Prim.Native.String.{String}
use Prim.Native.Nat.{ℕ, suc}
use mathlib.Core.Path.{◌≡◌, refl}
use mathlib.Core.Bool.{Bool, true, false, ◌&&◌}
use mathlib.Core.Option.{Option, none, some}
use mathlib.Core.List.{List, [], ◌∷◌}
use native.Mathlib.Omega.{arith}
use text.Mathlib.Text.{◌==◌ as str_eq}
use text.Mathlib.TextEquality.{eq_iff}
use codex_platform.Base.Tests.{◌==◌, if◌then◌else◌}
use codex_platform.Base.Lists.{any, all}

-- `negsuc n` is -(n + 1).
pub data ℤ : Type 0 where
  pos : ℕ → ℤ
  negsuc : ℕ → ℤ

-- `real o` is a float; `o` is its value where that is whole, which is all that `==` with an integer
-- can see of it.
mutual
  pub data Value : Type 0 where
    null : Value
    bool : Bool → Value
    int : ℤ → Value
    real : Option ℤ → Value
    str : String → Value
    arr : Items → Value
    obj : Fields → Value

  pub data Fields : Type 0 where
    end : Fields
    field : String → Value → Fields → Fields

  pub data Items : Type 0 where
    nil : Items
    cons : Value → Items → Items

abbrev pub to_list : Items → List Value
to_list nil = []
to_list (cons v vs) = v ∷ to_list vs

abbrev pub of_list : List Value → Items
of_list [] = nil
of_list (v ∷ vs) = cons v (of_list vs)

pub to_list-of_list : (vs : List Value) → to_list (of_list vs) ≡ vs
to_list-of_list [] = refl
to_list-of_list (v ∷ vs) = λ i. v ∷ to_list-of_list vs i

-- `fields.get(key)`, with `none` for a missing key.
abbrev pub lookup : String → Fields → Option Value
lookup k end = none
lookup k (field j v fs) = if str_eq j k then some v else lookup k fs

-- `fields[key] = value`
abbrev pub put : String → Value → Fields → Fields
put k v end = field k v end
put k v (field j w fs) = if str_eq j k then field j v fs else field j w (put k v fs)

abbrev pub keys : Fields → List String
keys end = []
keys (field j v fs) = j ∷ keys fs

pub lookup-put :
    (k j : String) (v : Value) (fs : Fields)
    → lookup j (put k v fs) ≡ (if str_eq k j then some v else lookup j fs)
lookup-put k j v end = refl
lookup-put k j v (field i w fs) =
    ground (arith, eq_iff k j, eq_iff i k, eq_iff i j, lookup-put k j v fs)

abbrev pub elem_str : String → List String → Bool
elem_str k ks = any (λ j. str_eq j k) ks

-- `set(a) == set(b)` for collections of text.
abbrev pub same_set : List String → List String → Bool
same_set a b = all (λ k. elem_str k b) a && all (λ k. elem_str k a) b

abbrev pub ℤ_eq : ℤ → ℤ → Bool
ℤ_eq (pos a) (pos b) = a == b
ℤ_eq (negsuc a) (negsuc b) = a == b
ℤ_eq _ _ = false

-- The number that a value is for `==`: a Boolean is 0 or 1.
abbrev pub as_number : Value → Option ℤ
as_number (bool b) = some (if b then pos 1 else pos 0)
as_number (int n) = some n
as_number (real o) = o
as_number _ = none

-- `value == n` for an integer `n`.
abbrev pub eq_int : Value → ℤ → Bool
eq_int v n = elim (as_number v) [ none ↦ false | some m ↦ ℤ_eq m n ]

-- `a == b` on values: dicts agree on their keys in any order, and a float that is not whole is taken
-- to equal no other value.
abbrev pub size : Fields → ℕ
size end = 0
size (field k v fs) = suc (size fs)

unfoldable mutual
  pub value_eq : Value → Value → Bool
  value_eq null null = true
  value_eq (str s) w = elim w [ str t ↦ str_eq s t | _ ↦ false ]
  value_eq (arr vs) w = elim w [ arr ws ↦ items_eq vs ws | _ ↦ false ]
  value_eq (obj fs) w = elim w [ obj gs ↦ (size fs == size gs) && fields_within fs gs | _ ↦ false ]
  value_eq (bool b) w = eq_int w (if b then pos 1 else pos 0)
  value_eq (int n) w = eq_int w n
  value_eq (real o) w = elim o [ none ↦ false | some n ↦ eq_int w n ]
  value_eq null w = false

  pub items_eq : Items → Items → Bool
  items_eq nil nil = true
  items_eq (cons v vs) (cons w ws) = value_eq v w && items_eq vs ws
  items_eq _ _ = false

  pub fields_within : Fields → Fields → Bool
  fields_within end gs = true
  fields_within (field k v fs) gs =
      elim (lookup k gs) [ none ↦ false | some w ↦ value_eq v w ] && fields_within fs gs

-- `value == text`
abbrev pub eq_str : Value → String → Bool
eq_str (str s) t = str_eq s t
eq_str _ t = false

-- `type(value) is int`, with the integer.
abbrev pub type_int : Value → Option ℤ
type_int (int n) = some n
type_int _ = none

-- Lists and dicts cannot be members of a set: `value in {...}` raises TypeError on them.
abbrev pub is_hashable : Value → Bool
is_hashable (arr _) = false
is_hashable (obj _) = false
is_hashable _ = true

-- `value in {texts}`, for a hashable value.
abbrev pub in_texts : Value → List String → Bool
in_texts (str s) ts = elem_str s ts
in_texts _ ts = false
