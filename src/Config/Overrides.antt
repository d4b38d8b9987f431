-- ===== src/Config/Overrides.antt =====
-- Numbers in the environment take precedence over the adaptive parameters.
use proxmox_cpu_affinity.Base.{ℕ, ◌<◌, ◌^◌, ℤ, pos, some, Bytes, codes, itoa, atoi-itoa, ◌≡◌}
use proxmox_cpu_affinity.Config.{Environment, get_env_int, load}

get_env_int-itoa :
    (env : Environment) (key : Bytes) (fallback : ℤ) (n : ℕ)
    → n < 2 ^ 63
    → env key ≡ some (itoa (pos n))
    → get_env_int env key fallback ≡ pos n
unfolding get_env_int
get_env_int-itoa env key fallback n h e = rw (e, get_env_int, atoi-itoa n h)

-- Decimal numbers in PCA_ROUNDS and PCA_ITERATIONS that an `int` can hold are the rounds and the
-- iterations that the service uses, on a machine of any size.
pub load-itoa :
    (env : Environment) (cpu_count rounds iterations : ℕ)
    → rounds < 2 ^ 63
    → iterations < 2 ^ 63
    → env (codes "PCA_ROUNDS") ≡ some (itoa (pos rounds))
    → env (codes "PCA_ITERATIONS") ≡ some (itoa (pos iterations))
    → ((load env cpu_count).rounds ≡ pos rounds)
      × ((load env cpu_count).iterations ≡ pos iterations)
unfolding load
load-itoa env cpu_count rounds iterations h k e f = (
  get_env_int-itoa env (codes "PCA_ROUNDS") _ rounds h e,
  get_env_int-itoa env (codes "PCA_ITERATIONS") _ iterations k f,
)
