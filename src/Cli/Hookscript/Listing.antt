-- ===== src/Cli/Hookscript/Listing.antt =====
-- What `printVMList` and `isHAVM` of cmd/cli/hookscript.go say of a VM.
use proxmox_cpu_affinity.Base.{
  ℕ, Bool, true, false, Bool-cases, ◌&&◌, List, [], ◌∷◌, ◌++◌, Bytes, codes, contains, format_uint,
  ◌≡◌, ◌≢◌, refl, ap, subst, contains-append, Option-cases, ◌⊎◌, inl, inr,
}
use proxmox_cpu_affinity.Cli.Session.{
  Command, ha_config, Session, hook_name, ran, printed, say, Entry, Executor, is_hook_enabled,
}
use proxmox_cpu_affinity.Cli.Hookscript.{
  ha_key, is_ha_vm, process_config, is_enabled, vm_status, disable_hook, update_vm_hook,
}

-- The programs that were run, the newest first.
unfoldable pub commands : List Entry → List Command
commands [] = []
commands (ran c r ∷ log) = c ∷ commands log
commands (printed m ∷ log) = commands log

-- For a VM that HA does not manage, disable-all runs no program where the configuration is that of a
-- template, also where the list shows the hook as enabled. Else it deletes the hook where the list
-- shows it as enabled, and runs no program where it does not.
pub process_config-vm_status :
    (exec : Executor) (vmid : ℕ) (config : Bytes) (dry_run : Bool) (s : Session)
    → ((contains config (codes "template: 1") ≡ true)
        × (commands (process_config exec false [] false dry_run vmid config s).log
            ≡ commands s.log))
      ⊎ ((contains config (codes "template: 1") ≡ false)
          × ((vm_status vmid config false).status ≡ is_enabled)
          × (process_config exec false [] false dry_run vmid config s
              ≡ disable_hook exec vmid dry_run s))
      ⊎ ((contains config (codes "template: 1") ≡ false)
          × ((vm_status vmid config false).status ≢ is_enabled)
          × (commands (process_config exec false [] false dry_run vmid config s).log
              ≡ commands s.log))
unfolding vm_status process_config update_vm_hook is_hook_enabled say commands
process_config-vm_status exec vmid config dry_run s =
    elim (Bool-cases (contains config (codes "template: 1"))) [
      | inl h ↦ rw (h, process_config) (inl (refl, refl))
      | inr h ↦ elim (Bool-cases (contains config (codes "affinity:"))) [
        | inl q ↦ rw (h, q, vm_status, process_config) (inr (inr (refl, λ e. cc, refl)))
        | inr q ↦
            elim (Bool-cases
              (contains config (codes "hookscript: ") && contains config hook_name)) [
                | inl e ↦
                    rw (h, q, e, vm_status, process_config, is_hook_enabled)
                      (inr (inl (refl, refl, refl)))
                | inr e ↦
                    rw (h, q, e, vm_status, process_config, is_hook_enabled)
                      (inr (inr (refl, λ e. cc, refl)))
              ]
      ]
    ]

-- A VM counts as managed by HA as soon as the number of a managed VM begins with its own number.
pub is_ha_vm-prefix :
    (exec : Executor) (m n : ℕ) (rest : Bytes) (s : Session)
    → format_uint n ≡ format_uint m ++ rest
    → (is_ha_vm exec n s).0 ≡ true
    → (is_ha_vm exec m s).0 ≡ true
unfolding is_ha_vm ha_key
is_ha_vm-prefix exec m n rest s h = elim (Option-cases s.ha_cache) [
  | inl q ↦ rw (q, is_ha_vm) (named (exec s.log ha_config).output)
  | inr (text, q) ↦ rw (q, is_ha_vm) (named text)
]
  where
    named : (text : Bytes) → contains text (ha_key n) ≡ true → contains text (ha_key m) ≡ true
    named text t =
        contains-append text (ha_key m) rest
          (subst (λ k. contains text k ≡ true) (ap (λ k. codes "vm: " ++ k) h) t)
