-- ===== src/Overload/Rate/Bound.antt =====
-- The arithmetic of the windows of a second.
use band_width_limiter.Base.{
  ℕ, suc, ◌+◌, ◌-◌, ◌*◌, ◌/◌, ◌≤◌, ◌<◌, ◌≡◌, refl, ◌⊎◌, inl, inr, arith, leb, if◌then◌else◌,
  Bool-cases, true, false,
}
use band_width_limiter.Controller.{nano_mult}

-- The bytes that may move until `end`, when it is `t`, the last access was at `s`, and `b` are left of a
-- limit of `l` a second.
abbrev pub allowed : ℕ → ℕ → ℕ → ℕ → ℕ → ℕ
allowed l b s t end =
    if leb (s + nano_mult) t
    then l * ((end - t + nano_mult) / nano_mult)
    else b + l * ((end - s) / nano_mult)

mul_mono : (l m n : ℕ) → m ≤ n → l * m ≤ l * n
mul_mono l m n h = grind arith

-- The windows in more time are no fewer.
windows_mono : (l x y : ℕ) → x ≤ y → l * (x / nano_mult) ≤ l * (y / nano_mult)
windows_mono l x y h = mul_mono l (x / nano_mult) (y / nano_mult) (omega arith)

windows_more : (l x y : ℕ) → x + nano_mult ≤ y → l + l * (x / nano_mult) ≤ l * (y / nano_mult)
windows_more l x y h =
    let more : suc (x / nano_mult) ≤ y / nano_mult = omega arith in
    let grown = mul_mono l (suc (x / nano_mult)) (y / nano_mult) more in grind arith

-- The access is recorded, unless nothing moved.
abbrev pub Touched : ℕ → ℕ → ℕ → ℕ → Type 0
Touched clock s m s' = ((s' ≡ s) × (m ≡ 0)) ⊎ (s' ≡ clock)

-- A turn that moves `m` bytes: out of what was left, or a second after the last access out of a whole
-- limit.
abbrev pub Drawn : ℕ → ℕ → ℕ → ℕ → ℕ → ℕ → ℕ → Type 0
Drawn l clock b s m b' s' =
    Touched clock s m s' × ((b' + m ≡ b) ⊎ ((b' + m ≡ l) × (s + nano_mult ≤ clock)))

allowed_late :
    (l b s t end : ℕ)
    → s + nano_mult ≤ t
    → allowed l b s t end ≡ l * ((end - t + nano_mult) / nano_mult)
allowed_late l b s t end h = let e : leb (s + nano_mult) t ≡ true = ground arith in rw (e) refl

allowed_soon :
    (l b s t end : ℕ) → t < s + nano_mult → allowed l b s t end ≡ b + l * ((end - s) / nano_mult)
allowed_soon l b s t end h = let e : leb (s + nano_mult) t ≡ false = ground arith in rw (e) refl

module _ (l b s t end clock : ℕ) (past : s ≤ t) (on : t ≤ clock) (soon : clock ≤ end)
    (few : b ≤ l) where
  -- Nothing moved, and the record of the access stays.
  allowed_idle :
      (b' : ℕ)
      → (b' ≡ b) ⊎ ((b' ≡ l) × (s + nano_mult ≤ clock))
      → allowed l b' s clock end ≤ allowed l b s t end
  allowed_idle b' whose = elim (Bool-cases (leb (s + nano_mult) t)) [
    | inl late ↦
        rw (allowed_late l b s t end (ground arith)) rw
          (allowed_late l b' s clock end (ground arith))
          (windows_mono l (end - clock + nano_mult) (end - t + nano_mult) (omega arith))
    | inr early ↦ elim (Bool-cases (leb (s + nano_mult) clock)) [
      | inl late ↦
          rw (allowed_soon l b s t end (ground arith)) rw
            (allowed_late l b' s clock end (ground arith))
            (omega (arith, windows_mono l (end - clock + nano_mult) (end - s) (ground arith)))
      | inr still ↦
          rw (allowed_soon l b s t end (ground arith)) rw
            (allowed_soon l b' s clock end (ground arith))
            (elim whose [ inl e ↦ omega (arith, e) | inr (e, late) ↦ absurd (ground arith) ])
    ]
  ]

  -- The access is recorded at `clock`.
  allowed_recorded :
      (m b' : ℕ)
      → (b' + m ≡ b) ⊎ ((b' + m ≡ l) × (s + nano_mult ≤ clock))
      → m + allowed l b' clock clock end ≤ allowed l b s t end
  allowed_recorded m b' whose =
      rw (allowed_soon l b' clock clock end (omega arith))
        (elim (Bool-cases (leb (s + nano_mult) t)) [
          | inl late ↦ rw (allowed_late l b s t end (ground arith)) (elim whose [
            | inl e ↦
                omega
                  (arith, e, few, windows_more l (end - clock) (end - t + nano_mult) (omega arith))
            | inr (e, _) ↦
                omega (arith, e, windows_more l (end - clock) (end - t + nano_mult) (omega arith))
          ])
          | inr early ↦ rw (allowed_soon l b s t end (ground arith)) (elim whose [
            | inl e ↦ omega (arith, e, windows_mono l (end - clock) (end - s) (omega arith))
            | inr (e, late) ↦
                omega (arith, e, windows_more l (end - clock) (end - s) (omega (arith, late)))
          ])
        ])

  -- A turn and what is allowed after it stay within what is allowed before it.
  pub allowed_turn :
      (m b' s' : ℕ)
      → Drawn l clock b s m b' s'
      → m + allowed l b' s' clock end ≤ allowed l b s t end
  allowed_turn m b' s' (inl (same, none'), whose) = rw (same) rw (none') (
      omega (
        arith,
        allowed_idle b' (elim whose [
          | inl e ↦ inl (omega (arith, e, none'))
          | inr (e, late) ↦ inr (omega (arith, e, none'), late)
        ]),
      ))
  allowed_turn m b' s' (inr touched, whose) = rw (touched) (allowed_recorded m b' whose)

-- What is allowed is what is left, and a limit for each second begun.
pub allowed_le :
    (l b s t end : ℕ) → s ≤ t → t ≤ end → allowed l b s t end ≤ b + l * suc ((end - t) / nano_mult)
allowed_le l b s t end past on = elim (Bool-cases (leb (s + nano_mult) t)) [
  | inl late ↦ rw (allowed_late l b s t end (ground arith)) (
      omega (
        arith,
        mul_mono l ((end - t + nano_mult) / nano_mult) (suc ((end - t) / nano_mult)) (omega arith),
      ))
  | inr early ↦ rw (allowed_soon l b s t end (ground arith)) (
      omega
        (arith, mul_mono l ((end - s) / nano_mult) (suc ((end - t) / nano_mult)) (ground arith)))
]
