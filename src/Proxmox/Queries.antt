-- ===== src/Proxmox/Queries.antt =====
-- What the two queries return.
use proxmox_cpu_affinity.Base.{
  ℤ, pos, negsuc, ==ℤ_iff, true, Option, some, none, Bytes, atoi, trim_space, ok, >>=-eq-ok,
  eq_of_ok, ◌≡◌, ◌≢◌, refl, sym, ap, subst, arith,
}
use proxmox_cpu_affinity.Proxmox.{
  VmConfig, ProxmoxError, Host, FileContent, missing, unreadable, content, get_vm_config,
  get_vm_pid, pid_path, config_command, at_least_one, or_fail, running_pid,
}

or_fail-eq-ok :
    {A : Type 0} (o : Option A) (e : ProxmoxError) {a : A} → or_fail o e ≡ ok a → o ≡ some a
unfolding or_fail
or_fail-eq-ok none e h = cc
or_fail-eq-ok (some a) e h = cc

at_least_one-ne-zero : (n : ℤ) → at_least_one n ≢ pos 0
unfolding at_least_one
at_least_one-ne-zero n = ground (arith, ==ℤ_iff n (pos 0))

at_least_one_same : (n : ℤ) → n ≢ pos 0 → at_least_one n ≡ n
unfolding at_least_one
at_least_one_same n h = ground (arith, ==ℤ_iff n (pos 0))

-- What a configuration has to do with what `pvesh` printed.
pub record IsConfigOf (h : Host) (vmid : ℤ) (config : VmConfig) : Type 0 where
  pub text : Bytes
  pub printed : h.output (config_command h vmid) ≡ some text
  pub raw : VmConfig
  pub decoded : h.unmarshal text ≡ some raw
  pub same_texts : (config.affinity ≡ raw.affinity) × (config.hook_script ≡ raw.hook_script)
  pub not_zero : (config.cores ≢ pos 0) × (config.sockets ≢ pos 0)
  pub same_cores : raw.cores ≢ pos 0 → config.cores ≡ raw.cores
  pub same_sockets : raw.sockets ≢ pos 0 → config.sockets ≡ raw.sockets

-- A configuration that was read is what `pvesh` printed, decoded, except that neither `cores` nor
-- `sockets` is ever 0.
pub get_vm_config-IsConfigOf :
    (h : Host) (vmid : ℤ) (config : VmConfig)
    → get_vm_config h vmid ≡ ok config
    → IsConfigOf h vmid config
unfolding get_vm_config
get_vm_config-IsConfigOf h vmid config e =
    let (text, p, q) =
      >>=-eq-ok (or_fail (h.output (config_command h vmid)) ProxmoxError.pvesh_failed) _ e in
    let (raw, d, r) = >>=-eq-ok (or_fail (h.unmarshal text) ProxmoxError.config_unreadable) _ q in
    let found = of_raw text raw (or_fail-eq-ok _ _ p) (or_fail-eq-ok _ _ d) in
    subst (IsConfigOf h vmid) (eq_of_ok r) found
  where
    of_raw :
        (text : Bytes) (raw : VmConfig)
        → h.output (config_command h vmid) ≡ some text
        → h.unmarshal text ≡ some raw
        → IsConfigOf h vmid
            (record raw { cores = at_least_one raw.cores; sockets = at_least_one raw.sockets })
    of_raw text raw p d = record {
      text = text;
      printed = p;
      raw = raw;
      decoded = d;
      same_texts = (refl, refl);
      not_zero = (at_least_one-ne-zero raw.cores, at_least_one-ne-zero raw.sockets);
      same_cores = at_least_one_same raw.cores;
      same_sockets = at_least_one_same raw.sockets;
    }

running_pid-IsRunning :
    (h : Host) (pid p : ℤ)
    → running_pid h pid ≡ p
    → p ≢ negsuc 0
    → (pid ≡ p) × (h.process_exists pid ≡ true)
unfolding running_pid
running_pid-IsRunning h pid p e ne = ground arith

-- A process id other than -1 is the number in the VM's pid file, and that process exists.
pub get_vm_pid-running :
    (h : Host) (vmid pid : ℤ)
    → get_vm_pid h vmid ≡ ok pid
    → pid ≢ negsuc 0
    → (text : Bytes) × (h.read_file (pid_path vmid) ≡ content text)
      × (atoi (trim_space text) ≡ some pid)
      × (h.process_exists pid ≡ true)
unfolding get_vm_pid
get_vm_pid-running h vmid pid e ne = from (h.read_file (pid_path vmid)) refl
  where
    from :
        (file : FileContent)
        → h.read_file (pid_path vmid) ≡ file
        → (text : Bytes) × (h.read_file (pid_path vmid) ≡ content text)
          × (atoi (trim_space text) ≡ some pid)
          × (h.process_exists pid ≡ true)
    from missing q = absurd (ne (sym (eq_of_ok (rw (q, get_vm_pid) at e))))
    from unreadable q = cc (rw (q, get_vm_pid) at e)
    from (content text) q =
        let e' = rw (q, get_vm_pid) at e in
        let (p, d, r) =
          >>=-eq-ok (or_fail (atoi (trim_space text)) ProxmoxError.pid_not_a_number) _ e' in
        let (same, alive) = running_pid-IsRunning h p pid (eq_of_ok r) ne in
        (
          text,
          q,
          rw (or_fail-eq-ok _ _ d) (ap some same),
          subst (λ k. h.process_exists k ≡ true) same alive,
        )
