-- ===== src/Json/Keys.antt =====
-- A key that is written again, and texts that are compared with themselves.
use afk_composable_pipeline.Common.{
  String, List, [], ◌∷◌, Bool, true, str_eq, if◌then◌else◌, all, ◌≡◌, refl, arith,
}
use afk_composable_pipeline.Json.{
  Json, Fields, null, bool, int, str, arr, obj, end, field, lookup, put, get, eq, size, keys_are,
  is_some, str_and,
}
use afk_composable_pipeline.Json.Laws.{lookup-put, eq_str_refl}

size-put :
    (k : String) (v : Json) (fs : Fields)
    → is_some (lookup k fs) ≡ true
    → size (put k v fs) ≡ size fs
unfolding lookup put size
size-put k v end h = ground arith
size-put k v (field j w fs) h = ground (arith, size-put k v fs)

is_some-put :
    (k j : String) (v : Json) (fs : Fields)
    → is_some (lookup j fs) ≡ true
    → is_some (lookup j (put k v fs)) ≡ true
is_some-put k j v fs h = rw lookup-put (ground arith)

all_some-put :
    (k : String) (v : Json) (fs : Fields) (ks : List String)
    → all (λ j. is_some (lookup j fs)) ks ≡ true
    → all (λ j. is_some (lookup j (put k v fs))) ks ≡ true
all_some-put k v fs [] h = refl
all_some-put k v fs (j ∷ ks) h = ground (arith, is_some-put k j v fs, all_some-put k v fs ks)

-- Writing a key that is there keeps the set of keys.
pub keys_are-put :
    (ks : List String) (k : String) (v : Json) (fs : Fields)
    → keys_are ks (obj fs) ≡ true
    → is_some (lookup k fs) ≡ true
    → keys_are ks (obj (put k v fs)) ≡ true
unfolding keys_are
keys_are-put ks k v fs h p = ground (arith, all_some-put k v fs ks, size-put k v fs)

pub get-put :
    (k j : String) (v : Json) (fs : Fields)
    → get (obj (put k v fs)) j ≡ (if str_eq k j then v else get (obj fs) j)
unfolding get
get-put k j v fs = rw lookup-put (ground arith)

pub eq_text : (p : String → Bool) (v : Json) → str_and p v ≡ true → eq v v ≡ true
eq_text p (str s) h = eq_str_refl s
eq_text p null h = ground arith
eq_text p (bool b) h = ground arith
eq_text p (int z) h = ground arith
eq_text p (arr xs) h = ground arith
eq_text p (obj fs) h = ground arith
