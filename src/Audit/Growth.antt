-- ===== src/Audit/Growth.antt =====
-- How the chain of src/aero_bot/audit.py grows by a row.
use aero_bot.Prelude.{ℕ, suc, ◌+◌, List, [], ◌∷◌, ◌++◌, ◌≡◌, refl, arith, length, subst}
use aero_bot.Audit.Text.{Text}
use aero_bot.Audit.Json.{Stdlib}
use aero_bot.Audit.Store.{genesis_hash, Row, last, next_sequence, predecessor_hash}
use aero_bot.Audit.Chain.{IsLinked, IsChain}

-- The hash that the next row follows.
abbrev pub end_hash : Text → List Row → Text
end_hash before [] = before
end_hash before (row ∷ rows) = end_hash row.record_hash rows

pub predecessor_hash-last :
    (rows : List Row) → predecessor_hash (last rows) ≡ end_hash genesis_hash rows
predecessor_hash-last [] = refl
predecessor_hash-last (row ∷ rows) = go row rows
  where
    go :
        (row : Row) (rows : List Row)
        → predecessor_hash (last (row ∷ rows)) ≡ end_hash row.record_hash rows
    go row [] = refl
    go row (next ∷ rows) = go next rows

module _ (stdlib : Stdlib) where
  next_sequence-last :
      (place : ℕ) (before : Text) (row : Row) (rows : List Row)
      → IsChain stdlib place before (row ∷ rows)
      → next_sequence (last (row ∷ rows)) ≡ place + length (row ∷ rows)
  next_sequence-last place before row [] chain = let numbered = chain.0.numbered in omega arith
  next_sequence-last place before row (next ∷ rows) chain =
      let later = next_sequence-last (suc place) row.record_hash next rows chain.1 in omega arith

  pub next_sequence-length :
      (rows : List Row)
      → IsChain stdlib 1 genesis_hash rows
      → next_sequence (last rows) ≡ 1 + length rows
  next_sequence-length [] chain = refl
  next_sequence-length (row ∷ rows) chain = next_sequence-last 1 genesis_hash row rows chain

  pub IsChain-extend :
      (place : ℕ) (before : Text) (rows : List Row) (row : Row)
      → IsChain stdlib place before rows
      → IsLinked stdlib (place + length rows) (end_hash before rows) row
      → IsChain stdlib place before (rows ++ row ∷ [])
  IsChain-extend place before [] row chain fits =
      (subst (λ n. IsLinked stdlib n before row) (omega arith) fits, tt)
  IsChain-extend place before (first ∷ rows) row chain fits = (
    chain.0,
    IsChain-extend (suc place) first.record_hash rows row chain.1
        (subst (λ n. IsLinked stdlib n (end_hash first.record_hash rows) row) (omega arith) fits),
  )
