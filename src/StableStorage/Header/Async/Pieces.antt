-- ===== src/StableStorage/Header/Async/Pieces.antt =====
-- A stream whose bytes come in pieces.
use metamagic.Prelude.{
  ℕ, zero, suc, ◌≡◌, refl, ap, sym, ◌∙◌, arith, List, [], ◌∷◌, ◌++◌, Outcome, ok, err, ◌>>=◌,
}
use metamagic.StableStorage.Header.{Error, io, read_exact}
use metamagic.StableStorage.Header.Async.{AsyncRead, IsExact, with_contents->>=}

-- Each piece is a byte and those that come with it.
abbrev pub Pieces : Type 0
Pieces = List (ℕ × List ℕ)

abbrev pub concat : Pieces → List ℕ
concat [] = []
concat ((b, bs) ∷ ps) = b ∷ (bs ++ concat ps)

-- A piece of which nothing is left is done.
abbrev put_back : List ℕ → Pieces → Pieces
put_back [] ps = ps
put_back (b ∷ bs) ps = (b, bs) ∷ ps

-- Pieces are read until `n` bytes are there.
pub read_pieces : ℕ → Pieces → Outcome Error (List ℕ × Pieces)
read_pieces zero ps = ok ([], ps)
read_pieces (suc n) [] = err io
read_pieces (suc n) ((b, bs) ∷ ps) = do
  (bytes, rest) ← read_pieces n (put_back bs ps)
  ok (b ∷ bytes, rest)

abbrev pub pieces : AsyncRead Pieces
pieces = record { read_exact_async = read_pieces; contents = concat }

concat-put_back : (bs : List ℕ) (ps : Pieces) → concat (put_back bs ps) ≡ bs ++ concat ps
concat-put_back [] ps = refl
concat-put_back (b ∷ bs) ps = refl

read_exact-zero : (bytes : List ℕ) → read_exact 0 bytes ≡ ok ([], bytes)
unfolding read_exact
read_exact-zero bytes = ground arith

read_exact-cons :
    (n : ℕ) (b : ℕ) (bytes : List ℕ)
    → read_exact (suc n) (b ∷ bytes) ≡ (read_exact n bytes >>= (λ r. ok (b ∷ r.0, r.1)))
unfolding read_exact
read_exact-cons n b bytes = ground arith

read_exact-nil : (n : ℕ) → read_exact (suc n) [] ≡ err io
unfolding read_exact
read_exact-nil n = ground arith

pub pieces-IsExact : IsExact pieces
unfolding read_pieces
pieces-IsExact zero ps = sym (read_exact-zero (concat ps))
pieces-IsExact (suc n) [] = sym (read_exact-nil n)
pieces-IsExact (suc n) ((b, bs) ∷ ps) =
    with_contents->>= concat (read_pieces n (put_back bs ps)) _ (λ r. ok (b ∷ r.0, r.1))
      (λ bytes rest. refl)
    ∙ ap (λ m. m >>= (λ r. ok (b ∷ r.0, r.1)))
        (pieces-IsExact n (put_back bs ps) ∙ ap (read_exact n) (concat-put_back bs ps))
    ∙ sym (read_exact-cons n b (bs ++ concat ps))
