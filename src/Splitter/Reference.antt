-- ===== src/Splitter/Reference.antt =====
-- Splitting without the ring buffer: the loops of utils.go on the list of default tokens, by
-- recursion on the list.
use libsql_client_go.Base.{ℕ, Bool, true, false, none, some, List, [], ◌∷◌, get_or, if◌then◌else◌}
use libsql_client_go.Tokens.{Token}
use libsql_client_go.Base.Texts.{Text, is_empty}
use libsql_client_go.Splitter.{
  Scan, on_turn, turn, fresh, text_of, info_of, SplitStatementExtraInfo,
}

-- One call of `Next`: the scan, and the tokens that it leaves.
unfoldable pub scan_list : Token → Scan → List Token → Scan × List Token
scan_list e s [] = (s, [])
scan_list e s (t ∷ r) =
    let more = λ (s' : Scan). scan_list e s' r in
    on_turn (turn s t (get_or r 0 e) (get_or r 1 e)) (λ s'. (s', t ∷ r)) (λ s'. (s', r)) more

abbrev pub is_nil {ℓ} : {A : Type ℓ} → List A → Bool
is_nil [] = true
is_nil (x ∷ xs) = false

-- Every call of `Next` that a split makes, in one pass over the tokens.
unfoldable pub cut : Token → Scan → List Token → List Scan
cut e s [] = s ∷ []
cut e s (t ∷ r) =
    let more = λ (s' : Scan). cut e s' r in
    on_turn (turn s t (get_or r 0 e) (get_or r 1 e)) (λ s'. s' ∷ [])
      (λ s'. elim (is_nil r) [ true ↦ s' ∷ [] | false ↦ s' ∷ more (fresh s'.current) ]) more

-- The text of a call of `Next`, empty where no statement started.
abbrev pub statement_of : (ℕ → ℕ → Text) → Scan → Text
statement_of get_text s = elim (text_of get_text s.start s.previous) [ none ↦ [] | some t ↦ t ]

-- The statements of the calls: the texts that are not empty.
unfoldable pub statements : (ℕ → ℕ → Text) → List Scan → List Text
statements get_text [] = []
statements get_text (s ∷ ss) =
    let rest = statements get_text ss in
    let text = statement_of get_text s in if is_empty text then rest else text ∷ rest

-- What the last call says of the text.
unfoldable pub last_info : Scan → List Scan → SplitStatementExtraInfo
last_info s [] = info_of s
last_info s (s' ∷ ss) = last_info s' ss
