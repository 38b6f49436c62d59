-- ===== src/Config/Fields.antt =====
-- The four fields in the value of a port.
use band_width_limiter.Base.{
  ℕ, suc, ◌+◌, ◌==◌, ◌≡◌, ◌≢◌, refl, sym, ap, ◌∙◌, false, some, [], ◌∷◌, ◌++◌, append_assoc,
  append_nonempty, arith, All, All-append, All-imp,
}
use band_width_limiter.Text.{Bytes, strtok, atoi}
use band_width_limiter.Text.Tokens.{Free, strtok-Free, strtok_last, strtok_skip}
use band_width_limiter.Env.{PortStr, to_uint32}
use band_width_limiter.Config.{fields, assign, read_port, empty_port}

-- A field: not empty, with no bracket and no comma in it.
abbrev pub IsWord : Bytes → Type 0
IsWord s = (s ≢ []) × All (λ c. (c ≢ b'[') × (c ≢ b']') × (c ≢ b',')) s

-- The value `[a,b,c,d]`.
abbrev pub value_of : Bytes → Bytes → Bytes → Bytes → Bytes
value_of a b c d = b'[' ∷ (a ++ (b',' ∷ (b ++ (b',' ∷ (c ++ (b',' ∷ (d ++ (b']' ∷ []))))))))

abbrev pub described : Bytes → Bytes → Bytes → Bytes → PortStr
described a b c d = record {
  port_no = to_uint32 (atoi a);
  up_limit = atoi b;
  down_limit = atoi c;
  latency = to_uint32 (atoi d);
}

Free-comma : (s : Bytes) → IsWord s → Free (b',' ∷ []) s
Free-comma s w = All-imp (λ c h. ground (arith, h.2)) s w.1

Free-open : (s : Bytes) → IsWord s → Free (b'[' ∷ []) s
Free-open s w = All-imp (λ c h. ground (arith, h.0)) s w.1

Free-close : (s : Bytes) → IsWord s → Free (b']' ∷ []) s
Free-close s w = All-imp (λ c h. ground (arith, h.1)) s w.1

-- One round: the word before the comma is assigned.
fields_step :
    (more loop2 : ℕ) (s rest : Bytes) (p : PortStr)
    → (loop2 == 4) ≡ false
    → IsWord s
    → fields (suc more) loop2 (some (s ++ (b',' ∷ rest))) p
      ≡ fields more (loop2 + 1) (strtok (b']' ∷ []) rest).0 (assign loop2 s p)
unfolding fields
fields_step more loop2 s rest p other w =
    rw (other, strtok-Free (b',' ∷ []) s b',' rest w.0 (Free-comma s w) refl) refl

-- The last round.
fields_last : (d : Bytes) (p : PortStr) → IsWord d → fields 1 4 (some d) p ≡ assign 4 d p
unfolding fields
fields_last d p w = rw (fields, strtok_last (b']' ∷ []) d w.0 (Free-close d w)) refl

module _ (a b c d : Bytes) (ha : IsWord a) (hb : IsWord b) (hc : IsWord c) (hd : IsWord d) where
  opened :
      (strtok (b'[' ∷ []) (value_of a b c d)).0
      ≡ some (a ++ (b',' ∷ (b ++ (b',' ∷ (c ++ (b',' ∷ (d ++ (b']' ∷ []))))))))
  opened =
      let free = All-append _ a _ (Free-open a ha) (
        refl,
        All-append _ b _ (Free-open b hb) (
          refl,
          All-append _ c _ (Free-open c hc)
              (refl, All-append _ d (b']' ∷ []) (Free-open d hd) (refl, tt)),
        ),
      ) in
      ap (λ x. x.0)
        (strtok_skip (b'[' ∷ []) b'[' _ refl
          ∙ strtok_last (b'[' ∷ []) _ (append_nonempty a _ ha.0) free)

  second :
      (strtok (b']' ∷ []) (b ++ (b',' ∷ (c ++ (b',' ∷ (d ++ (b']' ∷ []))))))).0
      ≡ some (b ++ (b',' ∷ (c ++ (b',' ∷ d))))
  second =
      let free =
        All-append _ b _ (Free-close b hb)
          (refl, All-append _ c _ (Free-close c hc) (refl, Free-close d hd)) in
      let split : (b ++ (b',' ∷ (c ++ (b',' ∷ d)))) ++ (b']' ∷ [])
          ≡ b ++ (b',' ∷ (c ++ (b',' ∷ (d ++ (b']' ∷ []))))) =
        simp append_assoc in
      ap (λ x. (strtok (b']' ∷ []) x).0) (sym split)
      ∙ ap (λ x. x.0) (strtok-Free (b']' ∷ []) _ b']' [] (append_nonempty b _ hb.0) free refl)

  third : (strtok (b']' ∷ []) (c ++ (b',' ∷ d))).0 ≡ some (c ++ (b',' ∷ d))
  third =
      ap (λ x. x.0)
        (strtok_last (b']' ∷ []) _ (append_nonempty c _ hc.0)
          (All-append _ c _ (Free-close c hc) (refl, Free-close d hd)))

  fourth : (strtok (b']' ∷ []) d).0 ≡ some d
  fourth = ap (λ x. x.0) (strtok_last (b']' ∷ []) d hd.0 (Free-close d hd))

  pub read_port-described : read_port (value_of a b c d) ≡ described a b c d
  unfolding read_port assign
  read_port-described =
      ap (λ t. fields 4 1 t empty_port) opened
      ∙ fields_step 3 1 a _ empty_port refl ha
      ∙ ap (λ t. fields 3 2 t (assign 1 a empty_port)) second
      ∙ fields_step 2 2 b _ (assign 1 a empty_port) refl hb
      ∙ ap (λ t. fields 2 3 t (assign 2 b (assign 1 a empty_port))) third
      ∙ fields_step 1 3 c _ (assign 2 b (assign 1 a empty_port)) refl hc
      ∙ ap (λ t. fields 1 4 t (assign 3 c (assign 2 b (assign 1 a empty_port)))) fourth
      ∙ fields_last d (assign 3 c (assign 2 b (assign 1 a empty_port))) hd
