-- ===== src/CanisterConfig/Files/Commit.antt =====
-- Configurations that are committed to their files and read again.
use metamagic.Prelude.{
  String, ◌≡◌, ◌≢◌, refl, ap, sym, ◌∙◌, arith, true, some, ◌==◌, string_eq, if◌then◌else◌, ok,
  subst, ==-false,
}
use metamagic.Prelude.HashMap.{lookup, contains_key, NodupKeys, lookup-insert, contains_key-lookup}
use metamagic.CanisterConfig.Schema.{
  DscvrConfig, local_network_name, production_network_name, default_dscvr_config_path,
}
use metamagic.CanisterConfig.Query.{get_canister_network}
use metamagic.CanisterConfig.Persist.{generate_default_config, generate_local_config, merge}
use metamagic.CanisterConfig.Persist.Merge.{merge-generate}
use metamagic.CanisterConfig.Files.{
  Json, ReadsBack, Files, local_dscvr_config_path, get_config, write_config, commit,
  get_or_generate_local, try_new, merge_local, generate_config_from_production,
}

-- What a commit to a network writes.
abbrev pub part_of : String → DscvrConfig → DscvrConfig
part_of network cfg =
    if network == local_network_name then generate_local_config cfg else generate_default_config cfg

production-local : production_network_name ≢ local_network_name
unfolding string_eq
production-local = ==-false production_network_name local_network_name refl

local-default : local_dscvr_config_path ≢ default_dscvr_config_path
unfolding string_eq
local-default = ==-false local_dscvr_config_path default_dscvr_config_path refl

module _ (j : Json DscvrConfig) where
  get_config-some :
      (path text : String) (cfg : DscvrConfig) (files : Files)
      → lookup path files ≡ some text
      → j.from_reader text ≡ some cfg
      → get_config j path files ≡ ok cfg
  unfolding get_config
  get_config-some path text cfg files found parsed = ground arith

  -- A file that was written, and perhaps another one since.
  get_config-written :
      (path : String) (cfg : DscvrConfig) (files : Files)
      → lookup path files ≡ some (j.to_writer cfg)
      → ReadsBack j cfg
      → get_config j path files ≡ ok cfg
  get_config-written path cfg files found back =
      get_config-some path (j.to_writer cfg) cfg files found back

  lookup-write_config :
      (p path : String) (cfg : DscvrConfig) (files : Files)
      → lookup p (write_config j path cfg files)
        ≡ (if p == path then some (j.to_writer cfg) else lookup p files)
  unfolding write_config
  lookup-write_config p path cfg files = lookup-insert p path (j.to_writer cfg) files

  commit-local :
      (cfg : DscvrConfig) (network : String) (files : Files)
      → network ≡ local_network_name
      → commit j cfg network files ≡ (
        generate_local_config cfg,
        write_config j local_dscvr_config_path (generate_local_config cfg) files,
      )
  unfolding commit
  commit-local cfg network files e = ground arith

  commit-other :
      (cfg : DscvrConfig) (network : String) (files : Files)
      → network ≢ local_network_name
      → commit j cfg network files ≡ (
        generate_default_config cfg,
        write_config j default_dscvr_config_path (generate_default_config cfg) files,
      )
  unfolding commit
  commit-other cfg network files e = ground arith

  get_or_generate_local-there :
      (cfg : DscvrConfig) (files : Files)
      → lookup local_dscvr_config_path files ≡ some (j.to_writer cfg)
      → ReadsBack j cfg
      → get_or_generate_local j files ≡ (ok cfg, files)
  unfolding get_or_generate_local
  get_or_generate_local-there cfg files found back =
      let there : contains_key local_dscvr_config_path files ≡ true =
        (contains_key-lookup local_dscvr_config_path files).1
          (λ missing. absurd (let clash = sym missing ∙ found in cc)) in
      ground (arith, there, get_config-written local_dscvr_config_path cfg files found back)

  try_new-local :
      (network : String) (files : Files)
      → network ≡ local_network_name
      → try_new j network files ≡ get_or_generate_local j files
  unfolding try_new
  try_new-local network files e = ground arith

  try_new-other :
      (network : String) (files : Files)
      → network ≢ local_network_name
      → try_new j network files ≡ (get_config j default_dscvr_config_path files, files)
  unfolding try_new
  try_new-other network files e = ground arith

  -- What is committed to a network is read from the files for that network, and reading leaves the
  -- files alone.
  pub try_new-commit :
      (cfg : DscvrConfig) (network : String) (files : Files)
      → ReadsBack j (part_of network cfg)
      → try_new j network (commit j cfg network files).1
        ≡ (ok (part_of network cfg), (commit j cfg network files).1)
  try_new-commit cfg network files back = elim (string_eq.dec network local_network_name) [
    | yes e ↦
        let l = generate_local_config cfg in
        let done = commit-local cfg network files e in
        let found : lookup local_dscvr_config_path (commit j cfg network files).1
            ≡ some (j.to_writer l) =
          ground (
            arith,
            done,
            lookup-write_config local_dscvr_config_path local_dscvr_config_path l files,
          ) in
        let part : part_of network cfg ≡ l = ground arith in
        try_new-local network (commit j cfg network files).1 e
        ∙ get_or_generate_local-there l (commit j cfg network files).1 found
            (subst (ReadsBack j) part back)
        ∙ ap (λ c. (ok c, (commit j cfg network files).1)) (sym part)
    | no e ↦
        let b = generate_default_config cfg in
        let done = commit-other cfg network files e in
        let found : lookup default_dscvr_config_path (commit j cfg network files).1
            ≡ some (j.to_writer b) =
          ground (
            arith,
            done,
            lookup-write_config default_dscvr_config_path default_dscvr_config_path b files,
          ) in
        let part : part_of network cfg ≡ b = ground arith in
        try_new-other network (commit j cfg network files).1 e
        ∙ ap (λ c. (c, (commit j cfg network files).1))
            (get_config-written default_dscvr_config_path b (commit j cfg network files).1 found
                (subst (ReadsBack j) part back)
              ∙ ap ok (sym part))
  ]

  production-step :
      (l b : DscvrConfig) (files : Files)
      → try_new j production_network_name files ≡ (ok b, files)
      → get_or_generate_local j files ≡ (ok l, files)
      → generate_config_from_production j files ≡ (ok (merge l b), files)
  unfolding generate_config_from_production merge_local
  production-step l b files e e' = ground arith

  -- A configuration that is committed to the local network and then to another one is read from the
  -- files for production with every network as it was.
  pub production-commit :
      (cfg : DscvrConfig) (network : String) (files : Files) (canister w : String)
      → network ≢ local_network_name
      → NodupKeys cfg.canisters
      → ReadsBack j (generate_local_config cfg)
      → ReadsBack j (generate_default_config cfg)
      → (read : DscvrConfig) × (generate_config_from_production j
            (commit j cfg network (commit j cfg local_network_name files).1).1
          ≡ (ok read, (commit j cfg network (commit j cfg local_network_name files).1).1))
        × (get_canister_network read canister w ≡ get_canister_network cfg canister w)
  production-commit cfg network files canister w other d back-l back-b =
      let l = generate_local_config cfg in
      let b = generate_default_config cfg in
      let files' = write_config j local_dscvr_config_path l files in
      let files'' = write_config j default_dscvr_config_path b files' in
      let done : (commit j cfg network (commit j cfg local_network_name files).1).1 ≡ files'' =
        ap (λ r. r.1) (commit-other cfg network (commit j cfg local_network_name files).1 other)
        ∙ ap (λ f. write_config j default_dscvr_config_path b f.1)
            (commit-local cfg local_network_name files refl) in
      let found : lookup default_dscvr_config_path files'' ≡ some (j.to_writer b) =
        ground (
          arith,
          lookup-write_config default_dscvr_config_path default_dscvr_config_path b files',
        ) in
      let found' : lookup local_dscvr_config_path files'' ≡ some (j.to_writer l) =
        lookup-write_config local_dscvr_config_path default_dscvr_config_path b files'
        ∙ ground (
          arith,
          local-default,
          lookup-write_config local_dscvr_config_path local_dscvr_config_path l files,
        ) in
      let step =
        production-step l b files''
          (try_new-other production_network_name files'' production-local
            ∙ ap (λ c. (c, files''))
                (get_config-written default_dscvr_config_path b files'' found back-b))
          (get_or_generate_local-there l files'' found' back-l) in
      (
        merge l b,
        subst (λ f. generate_config_from_production j f ≡ (ok (merge l b), f)) (sym done) step,
        merge-generate cfg canister w d,
      )
