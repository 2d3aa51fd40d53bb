-- ===== src/StableStorage/Memory/Overlay.antt =====
-- Views of a memory with blocks laid over them.
use metamagic.Prelude.{
  ℕ, zero, suc, ◌+◌, ◌-◌, ◌≤◌, ◌<◌, ◌≡◌, refl, ap, ap₂, ◌∙◌, arith, List, [], ◌∷◌, ◌++◌, length,
}
use metamagic.StableStorage.Memory.{bytes_from, get_or, overlay}

pub get_or-append_left :
    (xs ys : List ℕ) (i d : ℕ) → i < length xs → get_or (xs ++ ys) i d ≡ get_or xs i d
get_or-append_left [] ys i d h = absurd (omega arith)
get_or-append_left (x ∷ xs) ys zero d h = refl
get_or-append_left (x ∷ xs) ys (suc i) d h = get_or-append_left xs ys i d (omega arith)

pub get_or-append_right :
    (xs ys : List ℕ) (i d : ℕ) → get_or (xs ++ ys) (length xs + i) d ≡ get_or ys i d
get_or-append_right [] ys i d = let e : 0 + i ≡ i = omega arith in ap (λ n. get_or ys n d) e
get_or-append_right (x ∷ xs) ys i d =
    let e : suc (length xs) + i ≡ suc (length xs + i) = omega arith in
    ap (λ n. get_or (x ∷ xs ++ ys) n d) e ∙ get_or-append_right xs ys i d

get_or_beyond : (xs : List ℕ) (i d : ℕ) → length xs ≤ i → get_or xs i d ≡ d
get_or_beyond [] i d h = refl
get_or_beyond (x ∷ xs) zero d h = absurd (omega arith)
get_or_beyond (x ∷ xs) (suc i) d h = get_or_beyond xs i d (omega arith)

-- Inside a block the view shows the block, whatever lies under it.
pub get_or_inside : (xs : List ℕ) (i d d' : ℕ) → i < length xs → get_or xs i d ≡ get_or xs i d'
get_or_inside [] i d d' h = absurd (omega arith)
get_or_inside (x ∷ xs) zero d d' h = refl
get_or_inside (x ∷ xs) (suc i) d d' h = get_or_inside xs i d d' (omega arith)

pub overlay_before :
    (bs : List ℕ) (o : ℕ) (view : ℕ → ℕ) (i : ℕ) → i < o → overlay bs o view i ≡ view i
overlay_before bs o view i h = ground arith

pub overlay_behind :
    (bs : List ℕ) (o : ℕ) (view : ℕ → ℕ) (i : ℕ) → o + length bs ≤ i → overlay bs o view i ≡ view i
overlay_behind bs o view i h = ground (arith, get_or_beyond bs (i - o) (view i))

-- Two blocks behind one another are one block.
pub overlay-append :
    (xs ys : List ℕ) (o : ℕ) (view : ℕ → ℕ) (i : ℕ)
    → overlay ys (o + length xs) (overlay xs o view) i ≡ overlay (xs ++ ys) o view i
overlay-append xs ys o view i = ground (
  arith,
  get_or-append_left xs ys (i - o) (view i),
  get_or-append_right xs ys (i - (o + length xs)) (view i),
  get_or_beyond xs (i - o) (view i),
  split,
)
  where
    split : o + length xs ≤ i → length xs + (i - (o + length xs)) ≡ i - o
    split h = omega arith

pub overlay_cong :
    (bs : List ℕ) (o : ℕ) {v w : ℕ → ℕ}
    → ((i : ℕ) → v i ≡ w i)
    → (i : ℕ) → overlay bs o v i ≡ overlay bs o w i
overlay_cong bs o h i = ground (arith, h i)

pub bytes_from_cong :
    (v w : ℕ → ℕ) (n o : ℕ)
    → ((i : ℕ) → o ≤ i → i < o + n → v i ≡ w i)
    → bytes_from v o n ≡ bytes_from w o n
bytes_from_cong v w zero o h = refl
bytes_from_cong v w (suc n) o h =
    ap₂ (λ b bs. b ∷ bs) (h o (omega arith) (omega arith))
      (bytes_from_cong v w n (suc o) (λ i lo hi. h i (omega arith) (omega arith)))

pub length-bytes_from : (v : ℕ → ℕ) (n o : ℕ) → length (bytes_from v o n) ≡ n
length-bytes_from v zero o = refl
length-bytes_from v (suc n) o = ap suc (length-bytes_from v n (suc o))

pub bytes_from-append :
    (v : ℕ → ℕ) (a b o : ℕ) → bytes_from v o a ++ bytes_from v (o + a) b ≡ bytes_from v o (a + b)
bytes_from-append v zero b o =
    let start : o + 0 ≡ o = omega arith in
    let total : b ≡ 0 + b = omega arith in ap₂ (bytes_from v) start total
bytes_from-append v (suc a) b o =
    let start : o + suc a ≡ suc o + a = omega arith in
    let total : suc (a + b) ≡ suc a + b = omega arith in
    ap (λ t. v o ∷ t)
      (ap (λ n. bytes_from v (suc o) a ++ bytes_from v n b) start ∙ bytes_from-append v a b (suc o))
    ∙ ap (bytes_from v o) total

overlay_tail :
    (b : ℕ) (bs : List ℕ) (o : ℕ) (v : ℕ → ℕ) (i : ℕ)
    → suc o ≤ i
    → overlay (b ∷ bs) o v i ≡ overlay bs (suc o) v i
overlay_tail b bs o v i lo =
    let at : i - o ≡ suc (i - suc o) = omega arith in
    ground (arith, ap (λ n. get_or (b ∷ bs) n (v i)) at)

-- What was laid at an address is read from there.
pub bytes_from-overlay :
    (bs : List ℕ) (o : ℕ) (v : ℕ → ℕ) → bytes_from (overlay bs o v) o (length bs) ≡ bs
bytes_from-overlay [] o v = refl
bytes_from-overlay (b ∷ bs) o v =
    ap₂ (λ x xs. x ∷ xs) (ground arith)
      (bytes_from_cong _ _ (length bs) (suc o) (λ i lo hi. overlay_tail b bs o v i lo)
        ∙ bytes_from-overlay bs (suc o) v)
