-- ===== src/Json/Lists.antt =====
-- Lists of values, as Python's loops and comprehensions read them.
use afk_composable_pipeline.Common.{List, [], ◌∷◌, ◌≡◌, refl, ap, map}
use afk_composable_pipeline.Json.{Json, Items, nil, cons, arr}

abbrev pub to_list : Items → List Json
to_list nil = []
to_list (cons x xs) = x ∷ to_list xs

abbrev pub of_list : List Json → Items
of_list [] = nil
of_list (x ∷ xs) = cons x (of_list xs)

-- A list written as a JSON array.
abbrev pub array : List Json → Json
array xs = arr (of_list xs)

abbrev pub elements : Json → List Json
elements (arr xs) = to_list xs
elements _ = []

pub to_list-of_list : (xs : List Json) → to_list (of_list xs) ≡ xs
to_list-of_list [] = refl
to_list-of_list (x ∷ xs) = ap (λ l. x ∷ l) (to_list-of_list xs)

pub map-map {ℓ κ μ} :
    {A : Type ℓ} {B : Type κ} {C : Type μ} (g : B → C) (f : A → B) (xs : List A)
    → map g (map f xs) ≡ map (λ x. g (f x)) xs
map-map g f [] = refl
map-map g f (x ∷ xs) = ap (λ l. g (f x) ∷ l) (map-map g f xs)
