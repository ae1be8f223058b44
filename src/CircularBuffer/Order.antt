-- ===== src/CircularBuffer/Order.antt =====
-- Positions of the ring in the order in which they are reached from the read pointer on.
use motown.Base.{ℕ, ◌+◌, ◌-◌, ◌≤◌, ◌<◌, ◌≡◌, List, [], ◌∷◌, ◌++◌, arith, ltb, if◌then◌else◌}

-- The way from the read pointer to a position, in a buffer of `n` bytes.
abbrev pub distance_from : ℕ → ℕ → ℕ → ℕ
distance_from n rd x = if ltb x rd then x + n - rd else x - rd

-- Positions of the buffer, each no nearer than the one before, from the distance `lo` on.
abbrev pub Ascends : ℕ → ℕ → ℕ → List ℕ → Type 0
Ascends n rd lo [] = Unit
Ascends n rd lo (x ∷ xs) =
    (x < n) × (lo ≤ distance_from n rd x) × Ascends n rd (distance_from n rd x) xs

pub Ascends-weaken :
    (n rd lo lo' : ℕ) (xs : List ℕ) → lo' ≤ lo → Ascends n rd lo xs → Ascends n rd lo' xs
Ascends-weaken n rd lo lo' [] le h = tt
Ascends-weaken n rd lo lo' (x ∷ xs) le (a, b, h) = (a, omega arith, h)

-- Without one of the positions.
pub Ascends-drop :
    (n rd lo : ℕ) (xs : List ℕ) (x : ℕ) (ys : List ℕ)
    → Ascends n rd lo (xs ++ (x ∷ ys))
    → Ascends n rd lo (xs ++ ys)
Ascends-drop n rd lo [] x ys (a, b, h) = Ascends-weaken n rd (distance_from n rd x) lo ys b h
Ascends-drop n rd lo (z ∷ xs) x ys (a, b, h) =
    (a, b, Ascends-drop n rd (distance_from n rd z) xs x ys h)

-- The first of them.
pub Ascends-front : (n rd lo : ℕ) (xs ys : List ℕ) → Ascends n rd lo (xs ++ ys) → Ascends n rd lo xs
Ascends-front n rd lo [] ys h = tt
Ascends-front n rd lo (x ∷ xs) ys (a, b, h) =
    (a, b, Ascends-front n rd (distance_from n rd x) xs ys h)

-- The last of them, which is at least as far as the rest.
pub Ascends-last :
    (n rd lo : ℕ) (xs : List ℕ) (x : ℕ)
    → Ascends n rd lo (xs ++ (x ∷ []))
    → (x < n) × (lo ≤ distance_from n rd x)
Ascends-last n rd lo [] x (a, b, h) = (a, b)
Ascends-last n rd lo (z ∷ xs) x (a, b, h) =
    let (c, d) = Ascends-last n rd (distance_from n rd z) xs x h in (c, omega arith)

-- Another position behind the last.
pub Ascends-snoc :
    (n rd lo : ℕ) (xs : List ℕ) (x y : ℕ)
    → Ascends n rd lo (xs ++ (x ∷ []))
    → y < n
    → distance_from n rd x ≤ distance_from n rd y
    → Ascends n rd lo (xs ++ (x ∷ (y ∷ [])))
Ascends-snoc n rd lo [] x y (a, b, h) lt le = (a, b, (lt, le, tt))
Ascends-snoc n rd lo (z ∷ xs) x y (a, b, h) lt le =
    (a, b, Ascends-snoc n rd (distance_from n rd z) xs x y h lt le)

-- A position that is at least as far as the new read pointer is nearer by the way to that.
distance_from_advance :
    (n rd rd' x : ℕ)
    → rd < n
    → rd' < n
    → x < n
    → distance_from n rd rd' ≤ distance_from n rd x
    → distance_from n rd' x ≡ distance_from n rd x - distance_from n rd rd'
distance_from_advance n rd rd' x a b c le = ground arith

-- From the new read pointer on.
pub Ascends-advance :
    (n rd rd' lo : ℕ) (xs : List ℕ)
    → rd < n
    → rd' < n
    → distance_from n rd rd' ≤ lo
    → Ascends n rd lo xs
    → Ascends n rd' (lo - distance_from n rd rd') xs
Ascends-advance n rd rd' lo [] a b le h = tt
Ascends-advance n rd rd' lo (x ∷ xs) a b le (c, d, h) =
    let near = distance_from_advance n rd rd' x a b c (omega arith) in
    let rest = Ascends-advance n rd rd' (distance_from n rd x) xs a b (omega arith) h in
    (c, omega arith, rw near rest)

-- The same for two of them.
pub Ascends-snoc_twice :
    (n rd lo : ℕ) (xs : List ℕ) (x y z : ℕ)
    → Ascends n rd lo (xs ++ (x ∷ []))
    → y < n
    → z < n
    → distance_from n rd x ≤ distance_from n rd y
    → distance_from n rd y ≤ distance_from n rd z
    → Ascends n rd lo (xs ++ (x ∷ (y ∷ (z ∷ []))))
Ascends-snoc_twice n rd lo [] x y z (a, b, h) lt lt' le le' = (a, b, (lt, le, (lt', le', tt)))
Ascends-snoc_twice n rd lo (w ∷ xs) x y z (a, b, h) lt lt' le le' =
    (a, b, Ascends-snoc_twice n rd (distance_from n rd w) xs x y z h lt lt' le le')

pub Ascends-end :
    (n rd lo : ℕ) (xs ys : List ℕ) (x : ℕ)
    → Ascends n rd lo (xs ++ (ys ++ (x ∷ [])))
    → lo ≤ distance_from n rd x
Ascends-end n rd lo [] ys x h = (Ascends-last n rd lo ys x h).1
Ascends-end n rd lo (z ∷ xs) ys x (a, b, h) =
    let rest = Ascends-end n rd (distance_from n rd z) xs ys x h in omega arith
