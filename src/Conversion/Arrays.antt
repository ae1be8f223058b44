-- ===== src/Conversion/Arrays.antt =====
-- The converters of vectors of services/media/framework_mojo/mojo_type_conversions.cc, and the
-- clone of a vector of services/media/framework/util/safe_clone.h.
use mathlib.Core.List.{append_assoc, append-nil}
use motown.Base.{
  ℕ, zero, suc, ◌+◌, ◌*◌, ◌≡◌, refl, ap, ◌∙◌, sym, Option, none, some, List, [], ◌∷◌, ◌++◌, map,
  length, length-append, replicate, length-replicate, arith,
}

module _ {A B : Type 0} where
  -- A loop that converts each element and pushes it back.
  pub push_all : (A → B) → List B → List A → List B
  push_all convert result [] = result
  push_all convert result (x ∷ xs) = push_all convert (result ++ (convert x ∷ [])) xs

  pub push_all-append :
      (convert : A → B) (result : List B) (xs : List A)
      → push_all convert result xs ≡ result ++ map convert xs
  unfolding push_all
  push_all-append convert result [] = sym (append-nil result)
  push_all-append convert result (x ∷ xs) =
      push_all-append convert (result ++ (convert x ∷ [])) xs
      ∙ append_assoc result (convert x ∷ []) (map convert xs)

  -- The converters to Array<MediaTypePtr> and Array<MediaTypeSetPtr> are the same code over two
  -- types of elements. Array<T>::New, of the size it is given, is not part of the repository.
  pub from_vector : (ℕ → List B) → (A → B) → Option (List A) → Option (List B)
  from_vector array_new convert none = none
  from_vector array_new convert (some input) =
      some (push_all convert (array_new (length input)) input)

  length-map : (convert : A → B) (xs : List A) → length (map convert xs) ≡ length xs
  length-map convert [] = refl
  length-map convert (x ∷ xs) = ap suc (length-map convert xs)

  length-push_all :
      (convert : A → B) (result : List B) (xs : List A)
      → length (push_all convert result xs) ≡ length result + length xs
  length-push_all convert result xs =
      ap length (push_all-append convert result xs)
      ∙ length-append result (map convert xs)
      ∙ ap (λ n. length result + n) (length-map convert xs)

  pub from_vector-append :
      (array_new : ℕ → List B) (convert : A → B) (input : List A)
      → from_vector array_new convert (some input)
        ≡ some (array_new (length input) ++ map convert input)
  unfolding from_vector
  from_vector-append array_new convert input =
      ap some (push_all-append convert (array_new (length input)) input)

  -- When Array<T>::New returns an array of the size it is given, the converted array is that array
  -- with the converted elements behind it, and is twice as long as the input.
  pub from_vector-doubles :
      (array_new : ℕ → List B) (new_size : (n : ℕ) → length (array_new n) ≡ n) (convert : A → B)
      (input : List A)
      → (from_vector array_new convert (some input)
          ≡ some (array_new (length input) ++ map convert input))
        × (length (array_new (length input) ++ map convert input) ≡ 2 * length input)
  unfolding from_vector
  from_vector-doubles array_new new_size convert input = (
    ap some (push_all-append convert (array_new (length input)) input),
    length-append (array_new (length input)) (map convert input)
        ∙ omega (arith, new_size (length input), length-map convert input),
  )

module _ {A B : Type 0} where
  -- The loop that assigns each element; `none` is an abort of one of the conversions.
  pub convert_all : (A → Option B) → List A → Option (List B)
  convert_all convert [] = some []
  convert_all convert (x ∷ xs) = elim (convert x) as (λ o. Option (List B)) [
    | none ↦ none
    | some y ↦ elim (convert_all convert xs) as (λ o. Option (List B)) [
      | none ↦ none
      | some ys ↦ some (y ∷ ys)
    ]
  ]

  -- The converters from Array<MediaTypePtr> and Array<MediaTypeSetPtr> to vectors.
  pub to_vector : (A → Option B) → Option (List A) → Option (Option (List B))
  to_vector convert none = some none
  to_vector convert (some input) =
      elim (convert_all convert input) as (λ o. Option (Option (List B))) [
        | none ↦ none
        | some output ↦ some (some output)
      ]

module _ {A B : Type 0} (send : Option A → Option B) (convert : Option B → Option (Option A))
    (null : convert none ≡ some none) (back : (a : Option A) → convert (send a) ≡ some a) where
  convert_all-map : (l : List (Option A)) → convert_all convert (map send l) ≡ some l
  unfolding convert_all
  convert_all-map [] = refl
  convert_all-map (x ∷ xs) = rw (back x, convert_all-map xs) refl

  convert_all-nulls :
      (n : ℕ) (l : List (Option A))
      → convert_all convert (replicate n none ++ map send l) ≡ some (replicate n none ++ l)
  unfolding convert_all
  convert_all-nulls zero l = convert_all-map l
  convert_all-nulls (suc n) l = rw (null, convert_all-nulls n l) refl

  -- When Array<T>::New returns null elements, null converts to null, and each element that is sent
  -- is read back, a vector sent as an array and read back is the vector behind as many null
  -- elements.
  pub to_vector-from_vector :
      (array_new : ℕ → List (Option B)) (new_nulls : (n : ℕ) → array_new n ≡ replicate n none)
      (l : List (Option A))
      → (r : List (Option B)) × (from_vector array_new send (some l) ≡ some r)
        × (to_vector convert (some r) ≡ some (some (replicate (length l) none ++ l)))
  unfolding to_vector
  to_vector-from_vector array_new new_nulls l = (
    replicate (length l) none ++ map send l,
    from_vector-append array_new send l ∙ ap (λ t. some (t ++ map send l)) (new_nulls (length l)),
    rw (convert_all-nulls (length l) l, to_vector) refl,
  )

module _ {A : Type 0} where
  -- SafeClone of a pointer.
  pub safe_clone : (A → A) → Option A → Option A
  safe_clone clone none = none
  safe_clone clone (some t) = some (clone t)

  -- SafeClone of a vector of pointers: a vector of as many null pointers, and the clones pushed
  -- back.
  pub safe_clone_vector : (A → A) → Option (List (Option A)) → Option (List (Option A))
  safe_clone_vector clone none = none
  safe_clone_vector clone (some input) =
      some (push_all (safe_clone clone) (replicate (length input) none) input)

  -- The clone of a vector of pointers is as many null pointers as the vector has elements, and
  -- then the clones of the elements: it is twice as long as the vector.
  pub safe_clone_vector-doubles :
      (clone : A → A) (input : List (Option A))
      → (safe_clone_vector clone (some input)
          ≡ some (replicate (length input) none ++ map (safe_clone clone) input))
        × (length (replicate (length input) none ++ map (safe_clone clone) input)
            ≡ 2 * length input)
  unfolding safe_clone_vector
  safe_clone_vector-doubles clone input = (
    ap some (push_all-append (safe_clone clone) (replicate (length input) none) input),
    length-append (replicate (length input) none) (map (safe_clone clone) input)
        ∙ omega (
          arith,
          length-replicate {A = Option A} (length input) none,
          length-map (safe_clone clone) input,
        ),
  )
