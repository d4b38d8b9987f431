-- ===== src/Cli/Ps/Settings.antt =====
-- The settings of a VM, as `getVMProcessInfo` of cmd/cli/ps.go reads them from its configuration.
use proxmox_cpu_affinity.Base.{
  ℕ, ◌==◌, ℤ, pos, Bool, true, false, ◌==ᵇ◌, if◌then◌else◌, List, [], ◌∷◌, Option, none, some,
  Bytes, codes, contains, trim_space, atoi,
}
use proxmox_cpu_affinity.Cli.Session.{hook_name}

-- What stands before the first separator and behind it: `strings.SplitN` into two parts.
unfoldable pub cut : ℕ → Bytes → Option (Bytes × Bytes)
cut sep [] = none
cut sep (c ∷ s) =
    if c == sep
    then some ([], s)
    else elim (cut sep s) [ none ↦ none | some (before, behind) ↦ some (c ∷ before, behind) ]

-- The variables that the lines of the configuration set.
pub record Settings : Type 0 where
  pub hook_status : Bytes
  pub cores : ℤ
  pub sockets : ℤ
  pub numa : Bool

abbrev pub default_settings : Settings
default_settings = record {
  hook_status = codes "Disabled";
  cores = pos 1;
  sockets = pos 1;
  numa = false;
}

or_else : Option ℤ → ℤ → ℤ
or_else none n = n
or_else (some m) n = m

unfoldable pub set_key : Bytes → Bytes → Settings → Settings
unfolding or_else
set_key key value s =
    if key ==ᵇ codes "hookscript"
    then (if contains value hook_name then record s { hook_status = codes "Enabled" } else s)
    else if key ==ᵇ codes "cores"
    then record s { cores = or_else (atoi value) s.cores }
    else if key ==ᵇ codes "sockets"
    then record s { sockets = or_else (atoi value) s.sockets }
    else if key ==ᵇ codes "numa"
    then (if value ==ᵇ codes "1" then record s { numa = true } else s)
    else s

unfoldable pub read_line : Bytes → Settings → Settings
unfolding cut set_key
read_line line s = elim (cut b':' line) [
  | none ↦ s
  | some (key, value) ↦ set_key (trim_space key) (trim_space value) s
]

unfoldable pub read_lines : List Bytes → Settings → Settings
unfolding read_line
read_lines [] s = s
read_lines (line ∷ lines) s = read_lines lines (read_line line s)
