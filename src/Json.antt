-- ===== src/Json.antt =====
-- The values that the program reads from and writes to JSON, with Python's tests on them. A number
-- is an integer: the program writes no floating-point number, and none is modelled.

pub mod Laws
pub mod Keys
pub mod Lists
use afk_composable_pipeline.Common.{
  ℕ, zero, suc, String, ◌≡◌, refl, Bool, true, false, not, ◌&&◌, ◌||◌, Option, none, some, List, [],
  ◌∷◌, str_eq, ◌==◌, leb, if◌then◌else◌, all, is_empty, length,
}

-- `negsuc n` is -(n + 1).
pub data ℤ : Type 0 where
  pos : ℕ → ℤ
  negsuc : ℕ → ℤ

mutual
  pub data Json : Type 0 where
    null : Json
    bool : Bool → Json
    int : ℤ → Json
    str : String → Json
    arr : Items → Json
    obj : Fields → Json

  pub data Items : Type 0 where
    nil : Items
    cons : Json → Items → Items

  pub data Fields : Type 0 where
    end : Fields
    field : String → Json → Fields → Fields

abbrev pub nat : ℕ → Json
nat n = int (pos n)

-- `d.get(k)` where the caller tells a missing key from a stored `None`.
unfoldable pub lookup : String → Fields → Option Json
lookup k end = none
lookup k (field j v fs) = if str_eq j k then some v else lookup k fs

abbrev pub or_null : Option Json → Json
or_null none = null
or_null (some v) = v

-- `v.get(k)`: `None` for a missing key. The program calls it on a dict only.
unfoldable pub get : Json → String → Json
unfolding lookup
get (obj fs) k = or_null (lookup k fs)
get _ k = null

abbrev pub is_some {ℓ} : {A : Type ℓ} → Option A → Bool
is_some none = false
is_some (some _) = true

-- `k in v`
unfoldable pub has : Json → String → Bool
unfolding lookup
has (obj fs) k = is_some (lookup k fs)
has _ k = false

-- `d[k] = v`: a present key keeps its place.
unfoldable pub put : String → Json → Fields → Fields
put k v end = field k v end
put k v (field j w fs) = if str_eq j k then field j v fs else field j w (put k v fs)

-- `d.update(e)`, and `{**d, **e}`
unfoldable pub merge : Fields → Fields → Fields
unfolding put
merge fs end = fs
merge fs (field k v gs) = merge (put k v fs) gs

abbrev pub fields : Json → Fields
fields (obj fs) = fs
fields _ = end

abbrev pub is_dict : Json → Bool
is_dict (obj _) = true
is_dict _ = false

abbrev pub is_list : Json → Bool
is_list (arr _) = true
is_list _ = false

abbrev pub is_str : Json → Bool
is_str (str _) = true
is_str _ = false

-- `type(v) is int`, which a `bool` is not
abbrev pub is_int : Json → Bool
is_int (int _) = true
is_int _ = false

abbrev pub is_bool : Json → Bool
is_bool (bool _) = true
is_bool _ = false

-- `isinstance(v, str) and p(v)`
abbrev pub str_and : (String → Bool) → Json → Bool
str_and p (str s) = p s
str_and p _ = false

-- `type(v) is int and p(v)` for a test of the sizes that the program asks for
abbrev pub int_and : (ℤ → Bool) → Json → Bool
int_and p (int z) = p z
int_and p _ = false

abbrev pub int_eq : ℤ → ℤ → Bool
int_eq (pos m) (pos n) = m == n
int_eq (negsuc m) (negsuc n) = m == n
int_eq _ _ = false

-- `n <= z`
abbrev pub at_least : ℕ → ℤ → Bool
at_least n (pos m) = leb n m
at_least n (negsuc m) = false

abbrev pub at_most : ℕ → ℤ → Bool
at_most n (pos m) = leb m n
at_most n (negsuc m) = true

abbrev pub of_bool : Bool → ℤ
of_bool true = pos 1
of_bool false = pos 0

unfoldable pub size : Fields → ℕ
size end = 0
size (field k v fs) = suc (size fs)

-- Whether an optional value is there and passes the test.
abbrev pub holds {ℓ} : {A : Type ℓ} → (A → Bool) → Option A → Bool
holds p none = false
holds p (some a) = p a

-- Python's `==`: `True == 1`, and dicts are compared without their order.
unfoldable mutual
  unfolding lookup size

  pub eq : Json → Json → Bool
  eq null null = true
  eq (bool a) (bool b) = int_eq (of_bool a) (of_bool b)
  eq (bool a) (int z) = int_eq (of_bool a) z
  eq (int z) (bool b) = int_eq z (of_bool b)
  eq (int z) (int w) = int_eq z w
  eq (str s) (str t) = str_eq s t
  eq (arr xs) (arr ys) = eq_items xs ys
  eq (obj fs) (obj gs) = size fs == size gs && eq_fields fs gs
  eq _ _ = false

  pub eq_items : Items → Items → Bool
  eq_items nil nil = true
  eq_items (cons x xs) (cons y ys) = eq x y && eq_items xs ys
  eq_items _ _ = false

  pub eq_fields : Fields → Fields → Bool
  eq_fields end gs = true
  eq_fields (field k v fs) gs = holds (eq v) (lookup k gs) && eq_fields fs gs

-- `bool(v)`
unfoldable pub truthy : Json → Bool
truthy null = false
truthy (bool b) = b
truthy (int (pos zero)) = false
truthy (int _) = true
truthy (str s) = not (is_empty s)
truthy (arr nil) = false
truthy (arr (cons _ _)) = true
truthy (obj end) = false
truthy (obj (field _ _ _)) = true

-- `set(v) == {...}`, the keys written out without a repetition
unfoldable pub keys_are : List String → Json → Bool
unfolding lookup size
keys_are ks (obj fs) = all (λ k. is_some (lookup k fs)) ks && size fs == length ks
keys_are ks _ = false

-- A dict written out: `{k: v, ...}`.
abbrev pub dict : List (String × Json) → Fields
dict [] = end
dict ((k, v) ∷ kvs) = field k v (dict kvs)

-- `v in {...}` for a set of texts
abbrev pub one_of : List String → Json → Bool
one_of [] v = false
one_of (s ∷ ss) v = eq v (str s) || one_of ss v

eq_runs :
    eq
      (obj (dict (("a", bool true) ∷ ("b", null) ∷ [])))
      (obj (dict (("b", null) ∷ ("a", nat 1) ∷ [])))
    ≡ true
unfolding eq
eq_runs = refl

keys_are_runs : keys_are ("a" ∷ "b" ∷ []) (obj (dict (("b", null) ∷ ("c", null) ∷ []))) ≡ false
unfolding keys_are
keys_are_runs = refl
