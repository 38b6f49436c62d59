-- ===== src/Overload/Copies.antt =====
-- `dup` and `dup2`.
use band_width_limiter.Base.{◌≡◌, ◌≢◌, refl, none, Bool-cases, inl, inr}
use band_width_limiter.Base.Int.{ℤ, negsuc, eq_ℤ, eq_ℤ-sound}
use band_width_limiter.Base.Outcome.{Returns}
use band_width_limiter.Base.{arith}
use band_width_limiter.Tree.Order.{fd_ord}
use band_width_limiter.Tree.Table.Laws.{find}
use band_width_limiter.Sock.{get_dest_port}
use band_width_limiter.Sock.Copy.{copy_fd-Copied}
use band_width_limiter.Controller.{Controller, func_dup_manager}
use band_width_limiter.Controller.Invariant.{IsController}
use band_width_limiter.Overload.{dup}

-- The new descriptor goes where the old one goes; the ports and the other descriptors stay.
abbrev pub Duplicated : Controller → ℤ → ℤ → Controller → Type 0
Duplicated c old_fd new_fd c' =
    (c'.reg_env_str ≡ c.reg_env_str)
    × (get_dest_port c'.soc_str new_fd ≡ get_dest_port c.soc_str old_fd)
    × ((q : ℤ) → new_fd ≢ q → get_dest_port c'.soc_str q ≡ get_dest_port c.soc_str q)

-- In a valid state, with a new descriptor that is not accepted, and a result of libc that is not
-- -1, `dup` (and `dup2`) returns with the same ports: the new descriptor goes where the old one
-- goes, and every other descriptor goes where it went.
pub dup-Duplicated :
    (c : Controller) (old_fd result new_fd : ℤ)
    → IsController c
    → find c.soc_str.acp_socket_rb new_fd ≡ none
    → result ≢ negsuc 0
    → Returns (Duplicated c old_fd new_fd) (dup c old_fd result new_fd)
unfolding dup func_dup_manager
dup-Duplicated c old_fd result new_fd v free worked = elim (Bool-cases (eq_ℤ result (negsuc 0))) [
  | inl failed ↦ absurd (worked (eq_ℤ-sound result (negsuc 0) (ground (arith, failed))))
  | inr fine ↦
      let ((s, b), got, (_, new, others)) = copy_fd-Copied c.soc_str old_fd new_fd v.sockets free in
      (record c { soc_str = s }, rw (fine, dup, got) refl, (refl, new, others))
]
