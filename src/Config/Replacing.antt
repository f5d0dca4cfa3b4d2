-- ===== src/Config/Replacing.antt =====
-- soaagent/util.c: the loop of `substitute` against a replacement that is read from the left.
use mathlib.Core.Option
use ddmframework.Common.{
  ℕ, zero, suc, ◌+◌, ◌-◌, ◌≤◌, ◌<◌, ◌≡◌, refl, sym, ap, subst, ◌∙◌, ◌⊎◌, true, false, Bool-cases,
  Option-cases, inl, inr, List, [], ◌∷◌, ◌++◌, append_assoc, Option, none, some, arith, length,
  length-append, length-take, length-drop, take, drop, ltb, if◌then◌else◌,
}
use ddmframework.Config.Substitute.{is_prefix, strstr, substitute_loop}

-- The text with every occurrence replaced, read from the left; the first `skip` bytes are dropped.
unfoldable pub replace_from : (src dst : List ℕ) → (skip : ℕ) → List ℕ → List ℕ
replace_from src dst skip [] = []
replace_from src dst (suc skip) (c ∷ s) = replace_from src dst skip s
replace_from src dst zero (c ∷ s) =
    let rest = replace_from src dst (length src - 1) s in
    let kept = replace_from src dst zero s in
    if is_prefix src (c ∷ s) then dst ++ rest else c ∷ kept

abbrev pub replaced : (src dst : List ℕ) → List ℕ → List ℕ
replaced src dst s = replace_from src dst 0 s

replace_from-drop :
    (src dst : List ℕ) (skip : ℕ) (s : List ℕ)
    → replace_from src dst skip s ≡ replaced src dst (drop skip s)
unfolding replace_from
replace_from-drop src dst zero [] = refl
replace_from-drop src dst zero (c ∷ s) = refl
replace_from-drop src dst (suc skip) [] = refl
replace_from-drop src dst (suc skip) (c ∷ s) = replace_from-drop src dst skip s

is_prefix-le : (xs s : List ℕ) → is_prefix xs s ≡ true → length xs ≤ length s
unfolding is_prefix
is_prefix-le [] s h = omega arith
is_prefix-le (x ∷ xs) [] h = cc
is_prefix-le (x ∷ xs) (c ∷ s) h = ground (arith, is_prefix-le xs s)

map-suc-none : (o : Option ℕ) → Option.map suc o ≡ none → o ≡ none
map-suc-none none h = refl
map-suc-none (some n) h = cc

map-suc-some :
    (o : Option ℕ) (n : ℕ) → Option.map suc o ≡ some n → (m : ℕ) × (o ≡ some m) × (n ≡ suc m)
map-suc-some none n h = cc
map-suc-some (some m) n h = (m, refl, ground arith)

module _ (src : List ℕ) (c : ℕ) (s : List ℕ) where
  strstr_here : is_prefix src (c ∷ s) ≡ true → strstr (c ∷ s) src ≡ some 0
  unfolding strstr
  strstr_here e = rw e refl

  strstr_later : is_prefix src (c ∷ s) ≡ false → strstr (c ∷ s) src ≡ Option.map suc (strstr s src)
  unfolding strstr
  strstr_later e = rw e refl

  module _ (dst : List ℕ) where
    replaced_here :
        is_prefix src (c ∷ s) ≡ true
        → replaced src dst (c ∷ s) ≡ dst ++ replaced src dst (drop (length src - 1) s)
    unfolding replace_from
    replaced_here e = rw e (ap (◌++◌ dst) (replace_from-drop src dst (length src - 1) s))

    replaced_later :
        is_prefix src (c ∷ s) ≡ false → replaced src dst (c ∷ s) ≡ c ∷ replaced src dst s
    unfolding replace_from
    replaced_later e = rw e refl

module _ (x : ℕ) (xs dst : List ℕ) where
  -- Where nothing is found, nothing is replaced.
  strstr-none : (s : List ℕ) → strstr s (x ∷ xs) ≡ none → replaced (x ∷ xs) dst s ≡ s
  strstr-none [] h = unfold replace_from in refl
  strstr-none (c ∷ s) h = elim (Bool-cases (is_prefix (x ∷ xs) (c ∷ s))) [
    | inl e ↦ cc (strstr_here (x ∷ xs) c s e)
    | inr e ↦
        replaced_later (x ∷ xs) c s dst e
        ∙ ap (◌∷◌ c) (
            strstr-none s
              (map-suc-none (strstr s (x ∷ xs)) (sym (strstr_later (x ∷ xs) c s e) ∙ h)))
  ]

  -- The text up to the first occurrence, the replacement, and the rest replaced.
  abbrev At : ℕ → List ℕ → Type 0
  At n s =
      (replaced (x ∷ xs) dst s
        ≡ take n s ++ (dst ++ replaced (x ∷ xs) dst (drop (n + suc (length xs)) s)))
      × (n + suc (length xs) ≤ length s)

  same_rest :
      (s : List ℕ) (j k : ℕ)
      → j ≡ k
      → dst ++ replaced (x ∷ xs) dst (drop j s) ≡ dst ++ replaced (x ∷ xs) dst (drop k s)
  same_rest s j k e = ap (λ i. dst ++ replaced (x ∷ xs) dst (drop i s)) e

  At-zero : (c : ℕ) (s : List ℕ) → is_prefix (x ∷ xs) (c ∷ s) ≡ true → At 0 (c ∷ s)
  At-zero c s e = (
    replaced_here (x ∷ xs) c s dst e
        ∙ same_rest (c ∷ s) (suc (suc (length xs) - 1)) (0 + suc (length xs)) (omega arith),
    omega (arith, is_prefix-le (x ∷ xs) (c ∷ s) e),
  )

  At-suc : (m c : ℕ) (s : List ℕ) → is_prefix (x ∷ xs) (c ∷ s) ≡ false → At m s → At (suc m) (c ∷ s)
  At-suc m c s e (same, fits) = (
    replaced_later (x ∷ xs) c s dst e
        ∙ ap (◌∷◌ c) same
        ∙ ap (λ t. c ∷ (take m s ++ t))
            (same_rest (c ∷ s) (suc (m + suc (length xs))) (suc m + suc (length xs)) (omega arith)),
    omega arith,
  )

  strstr_nil : strstr [] (x ∷ xs) ≡ none
  unfolding strstr is_prefix
  strstr_nil = refl

  strstr-some : (s : List ℕ) (n : ℕ) → strstr s (x ∷ xs) ≡ some n → At n s
  strstr-some [] n h = cc strstr_nil
  strstr-some (c ∷ s) n h = elim (Bool-cases (is_prefix (x ∷ xs) (c ∷ s))) [
    | inl e ↦ subst (λ k. At k (c ∷ s)) (cc (strstr_here (x ∷ xs) c s e)) (At-zero c s e)
    | inr e ↦
        let (m, found, is_suc) =
          map-suc-some (strstr s (x ∷ xs)) n (sym (strstr_later (x ∷ xs) c s e) ∙ h) in
        subst (λ k. At k (c ∷ s)) (sym is_suc) (At-suc m c s e (strstr-some s m found))
  ]

  -- Where the loop stands when it ends: the buffer is the same, and a text that fits is complete.
  abbrev pub Ends : (fuel : ℕ) → (out : List ℕ) → (left : ℕ) → (pi : List ℕ) → Type 0
  Ends fuel out left pi =
      (o : List ℕ) × (l : ℕ) × (p : List ℕ) × (substitute_loop fuel (x ∷ xs) dst out left pi
        ≡ some (o, l, p))
      × (length o + l ≡ length out + left)
      × ((left ≤ length (replaced (x ∷ xs) dst pi))
          ⊎ ((o ++ p ≡ out ++ replaced (x ∷ xs) dst pi) × (length p < l)))

  length-At :
      (n : ℕ) (s : List ℕ)
      → At n s
      → length (replaced (x ∷ xs) dst s)
        ≡ n + length dst + length (replaced (x ∷ xs) dst (drop (n + suc (length xs)) s))
  length-At n s (same, fits) =
      let later = replaced (x ∷ xs) dst (drop (n + suc (length xs)) s) in
      omega (
        arith,
        ap length same,
        length-append (take n s) (dst ++ later),
        length-append dst later,
        length-take n s,
      )

  room_left :
      (n : ℕ) (out : List ℕ) (left : ℕ) (pi : List ℕ)
      → At n pi
      → ltb left (n + length dst) ≡ false
      → length (out ++ (take n pi ++ dst)) + (left - n - length dst) ≡ length out + left
  room_left n out left pi (same, fits) room =
      ground (
        arith,
        length-append out (take n pi ++ dst),
        length-append (take n pi) dst,
        length-take n pi,
      )

  Ends-found :
      (fuel : ℕ) (out : List ℕ) (left : ℕ) (pi : List ℕ) (n : ℕ)
      → strstr pi (x ∷ xs) ≡ some n
      → At n pi
      → ltb left (n + length dst) ≡ false
      → Ends fuel
          (out ++ (take n pi ++ dst))
          (left - n - length dst)
          (drop (n + suc (length xs)) pi)
      → Ends (suc fuel) out left pi
  unfolding substitute_loop
  Ends-found fuel out left pi n found at room (o, l, p, run, kept, done) = (
    o,
    l,
    p,
    rw (found, substitute_loop) (rw room run),
    kept ∙ room_left n out left pi at room,
    elim done [
      | inl full ↦ inl (ground (arith, length-At n pi at))
      | inr (text, fits) ↦ inr (
        text
            ∙ append_assoc out (take n pi ++ dst) _
            ∙ ap (◌++◌ out) (append_assoc (take n pi) dst _ ∙ sym at.0),
        fits,
      )
    ],
  )

  Ends-full :
      (fuel : ℕ) (out : List ℕ) (left : ℕ) (pi : List ℕ) (n : ℕ)
      → strstr pi (x ∷ xs) ≡ some n
      → At n pi
      → ltb left (n + length dst) ≡ true
      → Ends (suc fuel) out left pi
  unfolding substitute_loop
  Ends-full fuel out left pi n found at room = (
    out,
    left,
    pi,
    rw (found, substitute_loop) (rw room refl),
    refl,
    inl (ground (arith, length-At n pi at)),
  )

  Ends-none :
      (fuel : ℕ) (out : List ℕ) (left : ℕ) (pi : List ℕ)
      → strstr pi (x ∷ xs) ≡ none
      → Ends (suc fuel) out left pi
  unfolding substitute_loop
  Ends-none fuel out left pi nothing = (
    out,
    left,
    pi,
    rw (nothing, substitute_loop) refl,
    refl,
    elim (Bool-cases (ltb (length pi) left)) [
      | inl room ↦ inr (ap (◌++◌ out) (sym (strstr-none pi nothing)), ground arith)
      | inr full ↦ inl (ground (arith, ap length (strstr-none pi nothing)))
    ],
  )

  -- The fuel is enough, since each round takes an occurrence from the input.
  pub substitute_loop_lem :
      (fuel : ℕ) (out : List ℕ) (left : ℕ) (pi : List ℕ) → length pi < fuel → Ends fuel out left pi
  substitute_loop_lem zero out left pi h = absurd (omega arith)
  substitute_loop_lem (suc fuel) out left pi h = elim (Option-cases (strstr pi (x ∷ xs))) [
    | inl nothing ↦ Ends-none fuel out left pi nothing
    | inr (n, found) ↦ elim (Bool-cases (ltb left (n + length dst))) [
      | inl full ↦ Ends-full fuel out left pi n found (strstr-some pi n found) full
      | inr room ↦ Ends-found fuel out left pi n found (strstr-some pi n found) room (
          substitute_loop_lem fuel (out ++ (take n pi ++ dst)) (left - n - length dst)
            (drop (n + suc (length xs)) pi)
            (omega (arith, length-drop (n + suc (length xs)) pi, (strstr-some pi n found).1)))
    ]
  ]
