-- ===== src/Launcher/Words.antt =====
-- How the command is split into words.
use band_width_limiter.Base.{
  ◌≡◌, ◌≢◌, refl, sym, ap, ◌∙◌, false, none, some, List, [], ◌∷◌, ◌++◌, append_nil, append_nonempty,
  append_assoc, All,
}
use band_width_limiter.Text.{Bytes}
use band_width_limiter.Launcher.{is_blank, parse_from, parse}

-- A word: not empty, and without white space.
abbrev IsArg : Bytes → Type 0
IsArg w = (w ≢ []) × All (λ c. is_blank c ≡ false) w

-- The words, each with one blank behind it but for the last.
abbrev pub join : List Bytes → Bytes
join [] = []
join (w ∷ []) = w
join (w ∷ ws) = w ++ (b' ' ∷ join ws)

-- Inside a word, the bytes that are no white space are added to it.
word_end :
    (done w : Bytes) → All (λ c. is_blank c ≡ false) w → parse_from (some done) w ≡ (done ++ w) ∷ []
unfolding parse_from
word_end done [] h = ap (λ x. x ∷ []) (sym (append_nil done))
word_end done (c ∷ w) h =
    rw (h.0, parse_from) (word_end (done ++ (c ∷ [])) w h.1)
    ∙ ap (λ x. x ∷ []) (append_assoc done (c ∷ []) w)

word_blank :
    (done w rest : Bytes)
    → All (λ c. is_blank c ≡ false) w
    → parse_from (some done) (w ++ (b' ' ∷ rest)) ≡ (done ++ w) ∷ parse_from none rest
unfolding parse_from
word_blank done [] rest h = ap (λ x. x ∷ parse_from none rest) (sym (append_nil done))
word_blank done (c ∷ w) rest h =
    rw (h.0, parse_from) (word_blank (done ++ (c ∷ [])) w rest h.1)
    ∙ ap (λ x. x ∷ parse_from none rest) (append_assoc done (c ∷ []) w)

-- At the start of a word it makes no difference that it is the start.
word_start :
    (w rest : Bytes) → IsArg w → parse_from none (w ++ rest) ≡ parse_from (some []) (w ++ rest)
unfolding parse_from
word_start [] rest h = absurd (h.0 refl)
word_start (c ∷ w) rest h = rw (h.1.0, parse_from) refl

one_word : (w : Bytes) → IsArg w → parse_from none w ≡ w ∷ []
one_word w h =
    ap (parse_from none) (sym (append_nil w))
    ∙ word_start w [] h
    ∙ ap (parse_from (some [])) (append_nil w)
    ∙ word_end [] w h.1

next_word :
    (w rest : Bytes) → IsArg w → parse_from none (w ++ (b' ' ∷ rest)) ≡ w ∷ parse_from none rest
next_word w rest h = word_start w (b' ' ∷ rest) h ∙ word_blank [] w rest h.1

words :
    (w : Bytes) (ws : List Bytes) → All IsArg (w ∷ ws) → parse_from none (join (w ∷ ws)) ≡ w ∷ ws
words w [] h = one_word w h.0
words w (v ∷ ws) h = next_word w (join (v ∷ ws)) h.0 ∙ ap (λ x. w ∷ x) (words v ws h.1)

words_blank :
    (w : Bytes) (ws : List Bytes)
    → All IsArg (w ∷ ws)
    → parse_from none (join (w ∷ ws) ++ (b' ' ∷ [])) ≡ w ∷ (ws ++ ([] ∷ []))
unfolding parse_from
words_blank w [] h = next_word w [] h.0
words_blank w (v ∷ ws) h =
    ap (parse_from none) (append_assoc w (b' ' ∷ join (v ∷ ws)) (b' ' ∷ []))
    ∙ next_word w (join (v ∷ ws) ++ (b' ' ∷ [])) h.0
    ∙ ap (λ x. w ∷ x) (words_blank v ws h.1)

parse_nonempty : (line : Bytes) → line ≢ [] → parse line ≡ parse_from none line
unfolding parse
parse_nonempty [] ne = absurd (ne refl)
parse_nonempty (c ∷ line) ne = refl

join_nonempty : (w : Bytes) (ws : List Bytes) → IsArg w → join (w ∷ ws) ≢ []
join_nonempty [] ws h = absurd (h.0 refl)
join_nonempty (c ∷ w) [] h = λ e. cc
join_nonempty (c ∷ w) (v ∷ ws) h = λ e. cc

-- A command of words without white space, joined by single blanks, is split into these words by
-- `parse`; with one more blank at the end, an empty argument follows them.
pub parse-join :
    (ws : List Bytes)
    → All IsArg ws
    → (parse (join ws) ≡ ws) × (parse (join ws ++ (b' ' ∷ [])) ≡ ws ++ ([] ∷ []))
unfolding parse parse_from
parse-join [] h = (refl, refl)
parse-join (w ∷ ws) h =
    let ne = join_nonempty w ws h.0 in
    (
      parse_nonempty (join (w ∷ ws)) ne ∙ words w ws h,
      parse_nonempty (join (w ∷ ws) ++ (b' ' ∷ [])) (append_nonempty (join (w ∷ ws)) (b' ' ∷ []) ne)
          ∙ words_blank w ws h,
    )
