-- ===== src/CanisterAgent/Client/Storage/Lossy.antt =====
-- An agent that fails as a script says, over one that does not: a restore through it whose chunks
-- are retried.
use metamagic.Prelude.{
  ℕ, ◌+◌, ◌*◌, ◌≤◌, ◌≡◌, refl, ap, arith, String, Bool, true, Option, none, List, [], ◌∷◌, length,
  Outcome, ok, err, All,
}
use metamagic.StableStorage.Memory.{StableMemory, IsLawful, page_size}
use metamagic.StableStorage.Header.{as_bytes, num_content_and_header_bytes}
use metamagic.StableStorage.Interface.Blocks.{restore_stable_storage-ok}
use metamagic.StableStorage.Endpoints.{Candid, IsCandid, StorageCanister, update_call}
use metamagic.CanisterAgent.AgentImpl.{AgentImpl}
use metamagic.CanisterAgent.Target.{CanisterAgent}
use metamagic.CanisterAgent.Restore.{Chunk, restore_chunks}
use metamagic.CanisterAgent.Restore.Cycle.{Begins}
use metamagic.CanisterAgent.Client.{Reply, update, query}
use metamagic.CanisterAgent.Client.Storage.{
  Sends, sent, started, answered, tried, RestoresThrough, call_init, call_restore, call_flag,
}
use metamagic.CanisterAgent.Client.Storage.Hosted.{Hosts, Delivered, heard, unheard, undelivered}
use metamagic.CanisterAgent.Client.Storage.Possible.{
  IsReliable, restore-Answers, init-Answers, flag-Answers,
}

-- What becomes of an update.
pub data Fate : Type 0 where
  passes : Fate
  answer_lost : Fate
  call_lost : Fate

-- Each chunk's answer is lost, then its call, and then it passes.
abbrev pub retried : List Chunk → List Fate → List Fate
retried [] script = script
retried (c ∷ cs) script = answer_lost ∷ call_lost ∷ passes ∷ retried cs script

module _ {Agent World P : Type 0} (impl : AgentImpl Agent World P) where
  unfoldable pub lossy_update :
      Agent
      → P
      → String
      → List ℕ
      → World × List Fate
      → Outcome String (List ℕ) × (World × List Fate)
  lossy_update agent id method args (w, []) =
      let r = impl.update agent id method args w in (r.0, (r.1, []))
  lossy_update agent id method args (w, passes ∷ script) =
      let r = impl.update agent id method args w in (r.0, (r.1, script))
  lossy_update agent id method args (w, answer_lost ∷ script) =
      (err "answer lost", ((impl.update agent id method args w).1, script))
  lossy_update agent id method args (w, call_lost ∷ script) = (err "call lost", (w, script))

  -- The agent with a script for its next updates.
  abbrev pub lossy : AgentImpl Agent (World × List Fate) P
  lossy = record {
    update = lossy_update;
    query =
        λ agent id method args w. let r = impl.query agent id method args w.0 in (r.0, (r.1, w.1));
    read_state_canister_info = λ agent id path w.
        let r = impl.read_state_canister_info agent id path w.0 in (r.0, (r.1, w.1));
    clone_with_identity = impl.clone_with_identity;
    get_principal = impl.get_principal;
  }

module _ {M : StableMemory} {candid : Candid} {gunzip : List ℕ → Option (List ℕ)} {P : Type 0}
    {is_backup_service is_restore_service : P → Bool} {Agent World : Type 0}
    {impl : AgentImpl Agent World P} {client : CanisterAgent Agent P} {caller : P}
    {IsUp : World → Type 0} {view : World → StorageCanister M} (is : IsCandid candid)
    (hosts : Hosts M candid gunzip is_backup_service is_restore_service impl client caller IsUp
      view)
    (reliable : IsReliable M candid gunzip is_backup_service is_restore_service impl client caller
      IsUp view) where
  lossy-updates :
      (method : String) (args : List ℕ) (w : World) (script : List Fate)
      → IsUp w
      → let r = update (lossy impl) client method args (w, script) in
        Delivered
          (view w)
          (update_call M candid gunzip is_backup_service is_restore_service caller method args
            (view w))
          (r.0, view r.1.0)
        × IsUp r.1.0
  unfolding update lossy_update
  lossy-updates method args w [] up =
      (heard (reliable.answered method args w up), (hosts.updates method args w up).1)
  lossy-updates method args w (passes ∷ script) up =
      (heard (reliable.answered method args w up), (hosts.updates method args w up).1)
  lossy-updates method args w (answer_lost ∷ script) up = (
    unheard "answer lost" (ap (λ r. (err "answer lost", r.1)) (reliable.answered method args w up)),
    (hosts.updates method args w up).1,
  )
  lossy-updates method args w (call_lost ∷ script) up = (undelivered "call lost" refl, up)

  -- Through such an agent the client reaches the canister, whatever the script is.
  pub lossy-Hosts :
      Hosts M candid gunzip is_backup_service is_restore_service
        (lossy impl)
        client
        caller
        (λ w. IsUp w.0)
        (λ w. view w.0)
  unfolding query
  lossy-Hosts = record {
    queried = λ method args w up.
        ap (λ (r : Reply × World). (r.0, (r.1, w.1))) (hosts.queried method args w.0 up);
    updates = λ method args w up. lossy-updates method args w.0 w.1 up;
  }

  passed :
      (c : Chunk) (w left : World) (script : List Fate) (reply : List ℕ)
      → call_restore impl candid client c w ≡ (ok reply, left)
      → call_restore (lossy impl) candid client c (w, passes ∷ script) ≡ (ok reply, (left, script))
  unfolding call_restore update lossy_update
  passed c w left script reply e = ap (λ (r : Reply × World). (r.0, (r.1, script))) e

  made_unheard :
      (c : Chunk) (w left : World) (script : List Fate) (reply : List ℕ)
      → call_restore impl candid client c w ≡ (ok reply, left)
      → call_restore (lossy impl) candid client c (w, answer_lost ∷ script)
        ≡ (err "answer lost", (left, script))
  unfolding call_restore update lossy_update
  made_unheard c w left script reply e =
      ap (λ (r : Reply × World). (err "answer lost", (r.1, script))) e

  not_made :
      (c : Chunk) (w : World) (script : List Fate)
      → call_restore (lossy impl) candid client c (w, call_lost ∷ script)
        ≡ (err "call lost", (w, script))
  unfolding call_restore update lossy_update
  not_made c w script = refl

  module _ (allowed : is_restore_service caller ≡ true) (L : IsLawful M) where
    Sends-retried :
        (cs : List Chunk) (len : ℕ) (w : World) (script : List Fate)
        → IsUp w
        → len ≤ M.pages (view w).memory * page_size
        → All (λ c. c.0 + length c.1 ≤ len) cs
        → (w' : World) × Sends (lossy impl) candid client cs [] (w, retried cs script) (w', script)
          × IsUp w'
    Sends-retried [] len w script up fits inside = (w, sent (w, script), up)
    Sends-retried (c ∷ cs) len w script up fits (here, inside) =
        let (m, e, p, _) = restore_stable_storage-ok M L c.0 c.1 (view w).memory (omega arith) in
        let a = restore-Answers is hosts reliable allowed c w (view w).memory m up refl e in
        let (m₂, e₂, p₂, _) = restore_stable_storage-ok M L c.0 c.1 m (omega (arith, p)) in
        let b = restore-Answers is hosts reliable allowed c a.left m m₂ a.up a.memory e₂ in
        let (w', run, still) =
          Sends-retried cs len b.left script b.up (omega (arith, p, p₂, ap M.pages b.memory))
            inside in
        (
          w',
          started c cs [] (omega arith) (
              tried cs [] [] c 5 (made_unheard c w a.left _ a.reply a.answer_is) (
                tried cs [] [] c 4 (not_made c a.left _)
                  (answered cs [] [] c 3 (passed c a.left b.left _ b.reply b.answer_is) run))),
          still,
        )

    -- A restore that can begin ends with success, with each chunk retried twice.
    pub lossy_restore :
        (reader : List ℕ) (w : World) (b : Begins M L reader (view w).memory)
        → IsUp w
        → let cs = (restore_chunks b.header none b.rest).1 in
          (w' : World) × RestoresThrough
            (lossy impl)
            candid
            client
            reader
            none
            (w, passes ∷ passes ∷ retried cs (passes ∷ []))
            (w', [])
          × IsUp w'
    unfolding call_init call_flag update lossy_update
    lossy_restore reader w b up =
        let cs = (restore_chunks b.header none b.rest).1 in
        let first =
          init-Answers is hosts reliable allowed (num_content_and_header_bytes b.header) w b.grown
            up b.initialised in
        let second =
          restore-Answers is hosts reliable allowed (0, as_bytes b.header) first.left b.grown
            b.headed first.up first.memory b.header_written in
        let (w_chunks, run, up') =
          Sends-retried cs b.len second.left (passes ∷ []) second.up
            (omega (arith, b.fits, ap M.pages second.memory)) b.inside in
        let last = flag-Answers is hosts reliable allowed w_chunks up' in
        (
          last.left,
          record {
            header = b.header;
            rest = b.rest;
            w_init = (first.left, passes ∷ retried cs (passes ∷ []));
            w_header = (second.left, retried cs (passes ∷ []));
            w_chunks = (w_chunks, passes ∷ []);
            reply_init = first.reply;
            reply_header = second.reply;
            reply_flag = last.reply;
            header_read = b.header_read;
            initialised =
                ap (λ (r : Reply × World). (r.0, (r.1, passes ∷ retried cs (passes ∷ []))))
                  first.answer_is;
            header_written =
                passed (0, as_bytes b.header) first.left second.left _ second.reply
                  second.answer_is;
            chunks_read = b.chunks_read;
            chunks_written = run;
            flagged = ap (λ (r : Reply × World). (r.0, (r.1, []))) last.answer_is;
          },
          last.up,
        )
