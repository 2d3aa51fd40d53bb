-- ===== src/StableStorage/Interface/Save.antt =====
-- Saves and restores of a canister across an upgrade.
use metamagic.Prelude.{
  ◌∷◌, ap, ◌∙◌, ℕ, ◌+◌, ◌≤◌, ◌<◌, ◌^◌, ◌≡◌, refl, arith, true, false, List, ◌++◌, length, drop,
  some, Outcome, ok, err, panic, All,
}
use metamagic.Prelude.Word.{IsU64}
use metamagic.CanisterIo.{Device, splice, seek_start, remaining, advance}
use metamagic.CanisterIo.Laws.{write_all-ok, drop-splice}
use metamagic.StableStorage.DataFormat.{DataFormatType, msg_pack}
use metamagic.StableStorage.Header.{Header, num_fields, default_header, new_from_reader, words}
use metamagic.StableStorage.Header as HeaderModule
use metamagic.StableStorage.Header.Codec.{new_from_reader_short}
use metamagic.StableStorage.Errors.{Error}
use metamagic.StableStorage.Transient.{Transient}
use metamagic.StableStorage.Adapters.{
  Serde, ReadsBack, Formats, serde_of, msg_pack_serialize, msg_pack_deserialize,
}
use metamagic.StableStorage.V1
use metamagic.StableStorage.V2
use metamagic.StableStorage.V2.RoundTrip.{
  restore-save, restore_refused, restore_panics, save_skipped,
}
use metamagic.StableStorage.Interface.{
  Thread, set_restore_from_stable_storage, v1_save, v2_save, keep, v1_restore, v2_restore,
  v1_v2_restore, fall_back,
}

module _ {T : Type 0} (formats : Formats T) where
  v2_restore-of :
      (count : ℕ) (r : Device) (s : Thread) {x : Outcome Error (Header × Transient × T) × ℕ}
      → V2.restore formats count r s.stored_schema_version ≡ x
      → v2_restore formats count r s ≡ keep formats x.0 (record s { stored_schema_version = x.1 })
  unfolding v2_restore
  v2_restore-of count r s e =
      ap
        (λ (x : Outcome Error (Header × Transient × T) × ℕ).
          keep formats x.0 (record s { stored_schema_version = x.1 }))
        e

  pub v1_v2_restore-of :
      (count : ℕ) (r : Device) (s : Thread) {x : Outcome Error (Header × Transient × T) × ℕ}
      → V2.restore formats count r s.stored_schema_version ≡ x
      → v1_v2_restore formats count r s
        ≡ fall_back formats count r (keep formats x.0 (record s { stored_schema_version = x.1 }))
  unfolding v1_v2_restore
  v1_v2_restore-of count r s e = ap (fall_back formats count r) (v2_restore-of count r s e)

  -- What `v2_save` of one canister wrote, `v1_v2_restore` of another restores: the contents, a
  -- header with the format, the version, the length and the instruction count of the save, and the
  -- version for the migrations. What that canister's thread held before does not matter.
  pub v1_v2_restore-v2_save :
      (count post version : ℕ) (w : Device) (t : T) (format : DataFormatType) (s s' : Thread)
      (serde : Serde T) (bytes : List ℕ)
      → serde_of formats format ≡ some serde
      → ReadsBack serde version t bytes
      → s.transient.skip_next_save ≡ false
      → IsU64 version
      → IsU64 count
      → w.position + 40 + length bytes ≤ w.room
      → w.room < 2 ^ 64
      → (w' : Device) × (v2_save formats count w t format version s ≡ ok w')
        × (v1_v2_restore formats post (seek_start w.position w') s' ≡ (
          ok t,
          record {
            header = record {
              header_length = num_fields;
              content_length = length bytes;
              content_format = format;
              content_schema_version = version;
              pre_upgrade_instruction_count = count;
            };
            transient = record { skip_next_save = false; post_upgrade_instruction_count = post };
            stored_schema_version = version;
          },
        ))
  unfolding v2_save fall_back keep
  v1_v2_restore-v2_save count post version w t format s s' serde bytes known back kept v64 c64 fits
        small =
      let h = record s.header { content_format = format; content_schema_version = version } in
      let (w', saves, restores) =
        restore-save formats serde t bytes count post s'.stored_schema_version w h s.transient known
          back kept v64 c64 fits small in
      (w', saves, v1_v2_restore-of post (seek_start w.position w') s' restores)

  -- After `set_restore_from_stable_storage true` a v2 save leaves the storage as it is, whatever it
  -- is asked to save, and reports success.
  pub v2_save_skipped :
      (count version : ℕ) (w : Device) (t : T) (format : DataFormatType) (s : Thread)
      → v2_save formats count w t format version (set_restore_from_stable_storage true s) ≡ ok w
  unfolding v2_save set_restore_from_stable_storage
  v2_save_skipped count version w t format s = save_skipped formats count w t _ _ refl

  v1_save-ok :
      (w : Device) (t : T) (bytes : List ℕ)
      → formats.rmp_serde.encode t ≡ some bytes
      → w.position + length bytes ≤ w.room
      → v1_save formats w t
        ≡ ok (record w {
          bytes = splice w.bytes w.position bytes;
          position = w.position + length bytes;
        })
  unfolding v1_save V1.save msg_pack_serialize
  v1_save-ok w t bytes encoded fits = ground (arith, write_all-ok bytes w fits)

  v1_restore-ok :
      (post : ℕ) (r : Device) (t : T) (n : ℕ) (s : Thread)
      → formats.rmp_serde.decode s.stored_schema_version (remaining r) ≡ some (t, n)
      → v1_restore formats post r s ≡ (
        ok t,
        record s {
          header = record default_header {
            content_length = r.position + n;
            content_format = msg_pack;
          };
          transient = record { skip_next_save = false; post_upgrade_instruction_count = post };
        },
      )
  unfolding v1_restore keep V1.restore msg_pack_deserialize advance
  v1_restore-ok post r t n s decoded = ground arith

  -- What `v1_save` wrote, `v1_v2_restore` restores wherever its bytes are refused as a v2 header:
  -- the contents, decoded at the schema version that the thread already held.
  pub v1_v2_restore-v1_save :
      (post : ℕ) (w : Device) (t : T) (s : Thread) (bytes : List ℕ) (e : HeaderModule.Error)
      → ReadsBack formats.rmp_serde s.stored_schema_version t bytes
      → w.position + length bytes ≤ w.room
      → new_from_reader (bytes ++ drop (w.position + length bytes) w.bytes) ≡ err e
      → (w' : Device) × (v1_save formats w t ≡ ok w')
        × (v1_v2_restore formats post (seek_start w.position w') s ≡ (
          ok t,
          record s {
            header = record default_header {
              content_length = w.position + length bytes;
              content_format = msg_pack;
            };
            transient = record { skip_next_save = false; post_upgrade_instruction_count = post };
          },
        ))
  unfolding seek_start remaining keep fall_back
  v1_v2_restore-v1_save post w t s bytes e back fits refused =
      let w' = record w {
        bytes = splice w.bytes w.position bytes;
        position = w.position + length bytes;
      } in
      let r = seek_start w.position w' in
      (
        w',
        v1_save-ok w t bytes back.0 fits,
        v1_v2_restore-of post r s (
              restore_refused formats post r s.stored_schema_version e
                (rw (drop-splice w.bytes w.position bytes) refused))
            ∙ v1_restore-ok post r t (length bytes) s
                (rw (drop-splice w.bytes w.position bytes) (back.1 _)),
      )

  -- Storage that begins with a count below the number of header fields, with that many words behind
  -- it, makes the transition panic where it means to fall back to v1.
  pub v1_v2_restore_panics :
      (post : ℕ) (r : Device) (s : Thread) (vs rest : List ℕ)
      → remaining r ≡ words (length vs ∷ vs) ++ rest
      → All IsU64 vs
      → length vs < num_fields
      → v1_v2_restore formats post r s ≡ (panic, s)
  unfolding keep fall_back
  v1_v2_restore_panics post r s vs rest e u64s few = v1_v2_restore-of post r s (
      restore_panics formats post r s.stored_schema_version
        (rw e (new_from_reader_short vs rest u64s few)))
