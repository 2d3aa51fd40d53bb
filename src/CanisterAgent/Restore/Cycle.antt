-- ===== src/CanisterAgent/Restore/Cycle.antt =====
-- A restore can be made where the memory can be initialised for it, and the memory that it leaves
-- is large enough for it.
use metamagic.Prelude.{
  ℕ, ◌+◌, ◌*◌, ◌^◌, ◌≤◌, ◌<◌, ◌≡◌, ◌≢◌, refl, ap, sym, ◌∙◌, arith, List, [], ◌∷◌, ◌++◌, length,
  none, Outcome, ok, err, panic, All, subst, ok-injective,
}
use metamagic.StableStorage.DataFormat.{unknown}
use metamagic.StableStorage.Header.{
  Header, new_from_reader, as_bytes, num_fields, num_content_and_header_bytes,
}
use metamagic.StableStorage.Header.Codec.{
  IsValid, length-as_bytes, new_from_reader-as_bytes, num_content_and_header_bytes-fields,
}
use metamagic.StableStorage.Memory.{StableMemory, IsLawful, page_size}
use metamagic.StableStorage.Interface as Canister
use metamagic.StableStorage.Interface.{init_stable_storage, restore_stable_storage}
use metamagic.StableStorage.Interface.Blocks.{
  init_stable_storage_lem, restore_stable_storage-ok, restore_stable_storage-written,
  backup_stable_storage-inside,
}
use metamagic.CanisterAgent.Backup as Client
use metamagic.CanisterAgent.Backup.{Query, backup_chunk_size, backup_stable_storage}
use metamagic.CanisterAgent.Backup.Chunks.{Shows}
use metamagic.CanisterAgent.Restore.{Chunk, Attempt, restore_chunks, Writes, Restores}
use metamagic.CanisterAgent.Restore.RoundTrip.{restore_chunks_lem}

-- The agent's answer for a call of the canister; a trap is an error of the agent.
abbrev pub answer : Outcome ⊥ (List ℕ) → Outcome Client.Error (List ℕ)
answer (ok bytes) = ok bytes
answer (err _) = err Client.agent
answer panic = err Client.agent

abbrev pub query_of : (M : StableMemory) → M.Mem → Query
query_of M m offset limit = answer (Canister.backup_stable_storage M offset limit m)

module _ (M : StableMemory) (L : IsLawful M) where
  open M use {Mem, pages, byte_at}

  -- A canister shows its memory.
  pub query_of-Shows :
      (m : Mem) (len : ℕ) → len ≤ pages m * page_size → Shows (byte_at m) len (query_of M m)
  query_of-Shows m len fits offset limit small inside =
      ap answer (backup_stable_storage-inside M L offset limit m (omega arith))

  Writes-pages :
      (queue : List Chunk) (flight : List Attempt) (m m' : Mem)
      → Writes M queue flight m m'
      → pages m' ≡ pages m
  Writes-pages queue flight m m' (Writes.done _) = refl
  Writes-pages queue flight m m' (Writes.start c others _ room r) =
      Writes-pages others (flight ++ (c, 6) ∷ []) m m' r
  Writes-pages queue flight m m' (Writes.finish _ before after c left {m' = m₁} e r) =
      Writes-pages queue (before ++ after) m₁ m' r
      ∙ (restore_stable_storage-written M L c.0 c.1 m m₁ e).0
  Writes-pages queue flight m m' (Writes.retry _ before after c left {m' = m₁} e r) =
      Writes-pages queue (before ++ (c, left) ∷ after) m₁ m' r
      ∙ (restore_stable_storage-written M L c.0 c.1 m m₁ e).0
  Writes-pages queue flight m m' (Writes.fail _ before after c left r) =
      Writes-pages queue (before ++ (c, left) ∷ after) m m' r

  pub Restores-pages :
      (h : Header) (content : List ℕ) (m m' : Mem)
      → IsValid h
      → h.content_format ≢ unknown
      → 40 + h.content_length < 2 ^ 64
      → Restores M (as_bytes h ++ content) none m m'
      → 40 + h.content_length ≤ pages m' * page_size
  Restores-pages h content m m' valid known small r =
      let h' : Header = record h { header_length = num_fields } in
      let p : (r.header, r.rest) ≡ (h', content) =
        ok-injective (sym r.header_read ∙ new_from_reader-as_bytes h content valid known) in
      let bytes : num_content_and_header_bytes r.header ≡ 40 + h.content_length =
        ap (λ (x : Header × List ℕ). num_content_and_header_bytes x.0) p
        ∙ num_content_and_header_bytes-fields h small in
      let (fits, _, _) =
        init_stable_storage_lem M L (num_content_and_header_bytes r.header) m r.grown
          r.initialised in
      let head =
        (restore_stable_storage-written M L 0 (as_bytes r.header) r.grown r.headed
          r.header_written).0 in
      let run =
        Writes-pages (restore_chunks r.header none r.rest).1 [] r.headed m' r.chunks_written in
      omega (arith, head, run, bytes)

  -- Chunks that fit can be written, one after the other.
  Writes-exist :
      (cs : List Chunk) (len : ℕ) (m : Mem)
      → len ≤ pages m * page_size
      → All (λ c. c.0 + length c.1 ≤ len) cs
      → (m' : Mem) × Writes M cs [] m m'
  Writes-exist [] len m fits inside = (m, Writes.done m)
  Writes-exist (c ∷ cs) len m fits (here, inside) =
      let (m₁, e, p, v) = restore_stable_storage-ok M L c.0 c.1 m (omega arith) in
      let (m₂, r) = Writes-exist cs len m₁ (omega (arith, p)) inside in
      (m₂, Writes.start c cs [] (omega arith) (Writes.finish cs [] [] c 5 e r))

  -- A restore up to its chunks, which fit in the memory.
  pub record Begins (reader : List ℕ) (m : Mem) : Type 0 where
    pub header : Header
    pub rest : List ℕ
    pub grown : Mem
    pub headed : Mem
    pub len : ℕ
    pub header_read : new_from_reader reader ≡ ok (header, rest)
    pub initialised : init_stable_storage M (num_content_and_header_bytes header) m ≡ ok grown
    pub header_written : restore_stable_storage M 0 (as_bytes header) grown ≡ ok headed
    pub chunks_read : (restore_chunks header none rest).0 ≡ ok tt
    pub fits : len ≤ pages headed * page_size
    pub inside : All (λ c. c.0 + length c.1 ≤ len) (restore_chunks header none rest).1

  pub restore-Begins :
      (h : Header) (content : List ℕ) (m grown : Mem)
      → IsValid h
      → h.content_format ≢ unknown
      → length content ≡ h.content_length
      → 40 + h.content_length < 2 ^ 64
      → init_stable_storage M (40 + h.content_length) m ≡ ok grown
      → Begins (as_bytes h ++ content) m
  restore-Begins h content m grown valid known long small e =
      let h' : Header = record h { header_length = num_fields } in
      let forty = length-as_bytes h' in
      let (fits, p, v) = init_stable_storage_lem M L (40 + h.content_length) m grown e in
      let (headed, written, p', v') =
        restore_stable_storage-ok M L 0 (as_bytes h') grown (omega (arith, forty)) in
      let r =
        restore_chunks_lem h' none content 40 (40 + h.content_length) forty
          (num_content_and_header_bytes-fields h small) (omega (arith, forty)) small
          (omega (arith, forty)) (omega arith) (omega (arith, long)) in
      record {
        header = h';
        rest = content;
        grown = grown;
        headed = headed;
        len = 40 + h.content_length;
        header_read = new_from_reader-as_bytes h content valid known;
        initialised =
            ap (λ n. init_stable_storage M n m) (num_content_and_header_bytes-fields h small) ∙ e;
        header_written = written;
        chunks_read = ap (λ s. s.0) r.1;
        fits = omega (arith, p');
        inside =
            subst (λ s. All (λ (c : Chunk). c.0 + length c.1 ≤ 40 + h.content_length) s.1) (sym r.1)
              r.3;
      }

  -- A backup can be restored wherever the memory can be initialised for it.
  pub restore_exists :
      (h : Header) (content : List ℕ) (m grown : Mem)
      → IsValid h
      → h.content_format ≢ unknown
      → length content ≡ h.content_length
      → 40 + h.content_length < 2 ^ 64
      → init_stable_storage M (40 + h.content_length) m ≡ ok grown
      → (m' : Mem) × Restores M (as_bytes h ++ content) none m m'
  restore_exists h content m grown valid known long small e =
      let b = restore-Begins h content m grown valid known long small e in
      let (m', run) =
        Writes-exist (restore_chunks b.header none b.rest).1 b.len b.headed b.fits b.inside in
      (
        m',
        record {
          header = b.header;
          rest = b.rest;
          grown = b.grown;
          headed = b.headed;
          header_read = b.header_read;
          initialised = b.initialised;
          header_written = b.header_written;
          chunks_read = b.chunks_read;
          chunks_written = run;
        },
      )
