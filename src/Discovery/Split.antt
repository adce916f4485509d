-- ===== src/Discovery/Split.antt =====
-- `SplitString` of common/zooClient.cpp and the plain way to cut a text at a delimiter.
use websocket_test.Base.{
  ℕ, ◌≡◌, refl, sym, ap, ◌∙◌, true, false, Bool, List, [], ◌∷◌, ◌++◌, ◌==◌, if◌then◌else◌,
  append_assoc, append-nil, Bool-cases, inl, inr,
}
use websocket_test.Discovery.{flush, split_from, split_string}

-- The text up to its first NUL.
abbrev pub before_nul : List ℕ → List ℕ
before_nul [] = []
before_nul (c ∷ s) = let rest = before_nul s in if c == 0 then [] else c ∷ rest

-- A byte in front of the first of the fields.
abbrev pub into_first : List ℕ → List (List ℕ) → List (List ℕ)
into_first s [] = s ∷ []
into_first s (field ∷ fields) = (s ++ field) ∷ fields

-- What stands between the delimiters, with what is empty.
abbrev pub fields : ℕ → List ℕ → List (List ℕ)
fields delim [] = [] ∷ []
fields delim (c ∷ s) =
    let rest = fields delim s in if c == delim then [] ∷ rest else into_first (c ∷ []) rest

abbrev pub not_empty : List (List ℕ) → List (List ℕ)
not_empty [] = []
not_empty ([] ∷ rest) = not_empty rest
not_empty ((c ∷ field) ∷ rest) = (c ∷ field) ∷ not_empty rest

into_first-append :
    (s t : List ℕ) (fs : List (List ℕ)) → into_first s (into_first t fs) ≡ into_first (s ++ t) fs
into_first-append s t [] = refl
into_first-append s t (f ∷ fs) = ap (λ x. x ∷ fs) (sym (append_assoc s t f))

not_empty-flush :
    (token : List ℕ) (rest : List (List ℕ))
    → flush token (not_empty rest) ≡ not_empty (token ∷ rest)
unfolding flush
not_empty-flush [] rest = refl
not_empty-flush (c ∷ token) rest = refl

into_first-nil :
    (token : List ℕ) (rest : List (List ℕ)) → into_first token ([] ∷ rest) ≡ token ∷ rest
into_first-nil token rest = ap (λ x. x ∷ rest) (append-nil token)

into_first_none : (delim : ℕ) (s : List ℕ) → into_first [] (fields delim s) ≡ fields delim s
into_first_none delim [] = refl
into_first_none delim (c ∷ s) = chosen (c == delim)
  where
    chosen :
        (b : Bool)
        → into_first [] (if b then [] ∷ fields delim s else into_first (c ∷ []) (fields delim s))
          ≡ (if b then [] ∷ fields delim s else into_first (c ∷ []) (fields delim s))
    chosen true = refl
    chosen false = into_first-append [] (c ∷ []) (fields delim s)

split_from-fields :
    (delim : ℕ) (token s : List ℕ)
    → split_from delim token s ≡ not_empty (into_first token (fields delim (before_nul s)))
unfolding split_from
split_from-fields delim token [] =
    not_empty-flush token [] ∙ ap not_empty (sym (into_first-nil token []))
split_from-fields delim token (c ∷ s) = elim (Bool-cases (c == 0)) [
  | inl z ↦ rw z (not_empty-flush token [] ∙ ap not_empty (sym (into_first-nil token [])))
  | inr z ↦ rw z (elim (Bool-cases (c == delim)) [
    | inl d ↦ rw d (
        ap (flush token) (split_from-fields delim [] s ∙ ap not_empty (into_first_none delim rest))
        ∙ not_empty-flush token (fields delim rest)
        ∙ ap not_empty (sym (into_first-nil token (fields delim rest))))
    | inr d ↦ rw d (
        split_from-fields delim (token ++ (c ∷ [])) s
        ∙ ap not_empty (sym (into_first-append token (c ∷ []) (fields delim rest))))
  ])
]
  where
    rest : List ℕ
    rest = before_nul s

-- SplitString gives, of the text up to its first NUL, what stands between the delimiters, in order,
-- without what is empty.
pub split_string-fields :
    (delim : ℕ) (s : List ℕ) → split_string s delim ≡ not_empty (fields delim (before_nul s))
unfolding split_string
split_string-fields delim s =
    split_from-fields delim [] s ∙ ap not_empty (into_first_none delim (before_nul s))
