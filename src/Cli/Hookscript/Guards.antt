-- ===== src/Cli/Hookscript/Guards.antt =====
-- What the commands of cmd/cli/hookscript.go change, and under which conditions.
pub mod CommandLine
pub mod Commands
use proxmox_cpu_affinity.Base.{
  ℕ, Bool, true, false, if_elim, not, ◌&&◌, if◌then◌else◌, List, map, [], ◌∷◌, Option, Option-cases,
  none, some, Bytes, codes, contains, SliceSort, ◌≡◌, refl, inl, inr, Result-cases,
}
use proxmox_cpu_affinity.Cli.Session.{
  Command, qm_list, ha_config, storage_status, qm_config, set_hook, delete_hook, Reply, Message,
  Entry, ran, printed, Session, Executor, run, say, hook_name, is_hook_enabled, skipped_hook,
  is_valid_storage, get_vm_config_output,
}
use proxmox_cpu_affinity.Cli.Hookscript.{
  print_vm_list, vm_status, HookStatusInfo, ha_key, is_ha_vm, has_affinity_set, complain,
  enable_hook, disable_hook, update_vm_hook, process_config, process_vm, process_vms,
  process_all_vms, get_vm_ids_from_qm_list, check_storage, guarded, with_storage, enable_command,
  disable_command, enable_all_command, disable_all_command,
}

-- The commands that change nothing.
pub data IsQuery : Command → Type 0 where
  of_list : IsQuery qm_list
  of_ha : IsQuery ha_config
  of_storage : IsQuery storage_status
  of_config : (vmid : ℕ) → IsQuery (qm_config vmid)

-- The newest entry is a read of the VM's configuration, which sets no affinity as far as it could
-- be read.
pub data IsRead (vmid : ℕ) : List Entry → Type 0 where
  read :
      (r : Reply) (rest : List Entry)
      → contains (if r.failed then [] else r.output) (codes "affinity:") ≡ false
      → IsRead vmid (ran (qm_config vmid) r ∷ rest)

-- The HA configuration is loaded and does not name the VM.
abbrev pub IsFree : Option Bytes → ℕ → Type 0
IsFree ha vmid = (text : Bytes) × (ha ≡ some text) × (contains text (ha_key vmid) ≡ false)

-- A log in which a hook is set or deleted only for a VM that HA does not manage, right after a look
-- at the VM's configuration that showed no affinity, and never in a dry run.
pub data IsGuarded (dry_run : Bool) (ha : Option Bytes) : List Entry → Type 0 where
  nothing : IsGuarded dry_run ha []
  told :
      (m : Message) {log : List Entry}
      → IsGuarded dry_run ha log
      → IsGuarded dry_run ha (printed m ∷ log)
  queried :
      {c : Command} (r : Reply) {log : List Entry}
      → IsQuery c
      → IsGuarded dry_run ha log
      → IsGuarded dry_run ha (ran c r ∷ log)
  enabled :
      (vmid : ℕ) (path : Bytes) (r : Reply) (m : Message) {log : List Entry}
      → dry_run ≡ false
      → IsFree ha vmid
      → IsRead vmid log
      → IsGuarded dry_run ha log
      → IsGuarded dry_run ha (ran (set_hook vmid path) r ∷ printed m ∷ log)
  disabled :
      (vmid : ℕ) (r : Reply) (m : Message) {log : List Entry}
      → dry_run ≡ false
      → IsFree ha vmid
      → IsRead vmid log
      → IsGuarded dry_run ha log
      → IsGuarded dry_run ha (ran (delete_hook vmid) r ∷ printed m ∷ log)

module _ (dry_run : Bool) where
  abbrev pub Holds : Session → Type 0
  Holds s = IsGuarded dry_run s.ha_cache s.log

  IsGuarded-none :
      (ha : Option Bytes) (text : Bytes) {log : List Entry}
      → ha ≡ none
      → IsGuarded dry_run ha log
      → IsGuarded dry_run (some text) log
  IsGuarded-none ha text h nothing = nothing
  IsGuarded-none ha text h (told m g) = told m (IsGuarded-none ha text h g)
  IsGuarded-none ha text h (queried r q g) = queried r q (IsGuarded-none ha text h g)
  IsGuarded-none ha text h (enabled vmid path r m d (t, e, c) i g) = cc
  IsGuarded-none ha text h (disabled vmid r m d (t, e, c) i g) = cc

  pub is_ha_vm-Holds :
      (exec : Executor) (vmid : ℕ) (s : Session)
      → Holds s
      → Holds (is_ha_vm exec vmid s).1
        × ((is_ha_vm exec vmid s).0 ≡ false → IsFree (is_ha_vm exec vmid s).1.ha_cache vmid)
  unfolding is_ha_vm run
  is_ha_vm-Holds exec vmid s g = elim (Option-cases s.ha_cache) [
    | inl q ↦
        rw (q, is_ha_vm) (IsGuarded-none s.ha_cache _ q (queried _ of_ha g), λ h. (_, refl, h))
    | inr (text, q) ↦ rw (q, is_ha_vm) (g, λ h. (text, q, h))
  ]

  complain-Holds :
      (m : Message) (failed : Bool) (s : Session) → Holds s → Holds (complain m failed s)
  unfolding complain say
  complain-Holds m true s g = told m g
  complain-Holds m false s g = g

  update_vm_hook-Holds :
      (exec : Executor) (vmid : ℕ) (enable : Bool) (storage : Bytes) (s : Session)
      → IsFree s.ha_cache vmid
      → IsRead vmid s.log
      → Holds s
      → Holds (update_vm_hook exec vmid enable storage dry_run s)
  unfolding update_vm_hook enable_hook disable_hook run say
  update_vm_hook-Holds exec vmid true storage s f i g =
      if_elim Holds (not (is_valid_storage storage)) (λ e. told _ g)
        λ _.
          if_elim Holds dry_run (λ e. told _ g)
            λ e. complain-Holds _ _ _ (enabled vmid _ _ _ e f i g)
  update_vm_hook-Holds exec vmid false storage s f i g =
      if_elim Holds dry_run (λ e. told _ g) λ e. complain-Holds _ _ _ (disabled vmid _ _ e f i g)

  process_config-Holds :
      (exec : Executor) (enable : Bool) (storage : Bytes) (force : Bool) (vmid : ℕ) (config : Bytes)
      (s : Session)
      → IsFree s.ha_cache vmid
      → (contains config (codes "affinity:") ≡ false → IsRead vmid s.log)
      → Holds s
      → Holds (process_config exec enable storage force dry_run vmid config s)
  unfolding process_config say
  process_config-Holds exec enable storage force vmid config s f i g =
      if_elim Holds (contains config (codes "template: 1")) (λ e. told _ g)
        λ _. if_elim Holds (contains config (codes "affinity:")) (λ e. told _ g) (go enable)
    where
      go :
          (enable : Bool)
          → contains config (codes "affinity:") ≡ false
          → Holds (
              if enable
              then if contains config (codes "hookscript:")
                  && (not (contains config hook_name) && not force)
                then say (skipped_hook vmid) s
                else update_vm_hook exec vmid true storage dry_run s
              else if not (is_hook_enabled config)
              then s
              else update_vm_hook exec vmid false [] dry_run s)
      go true e =
          if_elim Holds
            (contains config (codes "hookscript:")
              && (not (contains config hook_name) && not force))
            (λ _. told _ g) λ _. update_vm_hook-Holds exec vmid true storage s f (i e) g
      go false e =
          if_elim Holds (not (is_hook_enabled config)) (λ _. g)
            λ _. update_vm_hook-Holds exec vmid false [] s f (i e) g

  process_vm-Holds :
      (exec : Executor) (enable : Bool) (storage : Bytes) (force : Bool) (vmid : ℕ) (s : Session)
      → Holds s
      → Holds (process_vm exec enable storage force dry_run vmid s)
  unfolding process_vm get_vm_config_output run say
  process_vm-Holds exec enable storage force vmid s g =
      let (h, free) = is_ha_vm-Holds exec vmid s g in
      let (reply, s2) = run exec (qm_config vmid) (is_ha_vm exec vmid s).1 in
      if_elim Holds (is_ha_vm exec vmid s).0 (λ _. told _ h)
        λ e.
          process_config-Holds exec enable storage force vmid
            (if reply.failed then [] else reply.output) s2 (free e) (read reply _)
            (queried _ (of_config vmid) h)

  process_vms-Holds :
      (exec : Executor) (enable : Bool) (storage : Bytes) (force : Bool) (vmids : List ℕ)
      (s : Session)
      → Holds s
      → Holds (process_vms exec enable storage force dry_run vmids s)
  unfolding process_vms
  process_vms-Holds exec enable storage force [] s g = g
  process_vms-Holds exec enable storage force (vmid ∷ vmids) s g =
      process_vms-Holds exec enable storage force vmids _
        (process_vm-Holds exec enable storage force vmid s g)

  pub process_all_vms-Holds :
      (sorting : SliceSort ℕ) (exec : Executor) (enable : Bool) (storage : Bytes) (force : Bool)
      (s : Session)
      → Holds s
      → Holds (process_all_vms sorting exec enable storage force dry_run s)
  unfolding process_all_vms get_vm_ids_from_qm_list run
  process_all_vms-Holds sorting exec enable storage force s g =
      process_vms-Holds exec enable storage force (get_vm_ids_from_qm_list sorting exec s).0 _
        (queried (exec s.log qm_list) of_list g)

  pub guarded-Holds :
      (exec : Executor) (vmid : ℕ) (enable : Bool) (storage : Bytes) (s : Session)
      → Holds s
      → Holds (guarded exec vmid (update_vm_hook exec vmid enable storage dry_run) s).1
  unfolding guarded has_affinity_set run say
  guarded-Holds exec vmid enable storage s g =
      let (h, free) = is_ha_vm-Holds exec vmid s g in
      let P : ℕ × Session → Type 0 = λ r. Holds r.1 in
      if_elim P (is_ha_vm exec vmid s).0 (λ _. told _ h)
        λ e.
          if_elim P (has_affinity_set exec vmid (is_ha_vm exec vmid s).1).0
            (λ _. told _ (queried _ (of_config vmid) h))
            λ c.
              update_vm_hook-Holds exec vmid enable storage _ (free e) (read _ _ (clean _ _ c))
                (queried _ (of_config vmid) h)
    where
      clean :
          (failed : Bool) (out : Bytes)
          → contains out (codes "affinity:") ≡ false
          → contains (if failed then [] else out) (codes "affinity:") ≡ false
      clean true out c = unfold contains in refl
      clean false out c = c

  pub with_storage-Holds :
      (exec : Executor) (storage : Bytes) (force : Bool) (rest : Session → ℕ × Session)
      (s : Session)
      → ((t : Session) → Holds t → Holds (rest t).1)
      → Holds s
      → Holds (with_storage exec storage force rest s).1
  unfolding with_storage check_storage run say
  with_storage-Holds exec storage force rest s k g =
      elim (Result-cases (check_storage exec storage s).0) [
        | inl (u, q) ↦ rw (q, with_storage) (k _ (queried _ of_storage g))
        | inr (e, q) ↦
            rw (q, with_storage)
              (if_elim {A = ℕ × Session} (λ r. Holds r.1) (not force)
                (λ _. told _ (queried _ of_storage g)) λ _. k _ (told _ (queried _ of_storage g)))
      ]
