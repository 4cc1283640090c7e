-- ===== src/Utils/Access.antt =====
-- What `access_ok` accepts.
use so.Common.{ℕ, ◌+◌, ◌*◌, ◌^◌, ◌≤◌, ◌<◌, ◌≡◌, true, ◌↔◌, arith}
use so.Utils.{AccessType, verify_read, verify_write, access_ok, user_first_page}
use so.Mm.Paging.{num_pag_data, num_pag_code}

-- For a size that is no negative int, `access_ok` accepts exactly the blocks that begin at the
-- first user page or behind it and whose end, the address behind the last byte, lies no further
-- than in the page that follows the last user page.
pub access_ok_iff :
    (type : AccessType) (addr size : ℕ)
    → addr < 2 ^ 32
    → size < 2 ^ 31
    → (access_ok type addr size ≡ true) ↔ (
        (user_first_page * 2 ^ 12 ≤ addr)
        × (addr + size < (user_first_page + num_pag_code + num_pag_data + 1) * 2 ^ 12))
unfolding access_ok
access_ok_iff verify_read addr size h k =
    (λ e. (ground arith, ground arith), λ (p, q). ground arith)
access_ok_iff verify_write addr size h k =
    (λ e. (ground arith, ground arith), λ (p, q). ground arith)

-- A request to write is accepted exactly when a request to read is, on code pages too.
pub access_ok-write_eq_read :
    (addr size : ℕ) → access_ok verify_write addr size ≡ access_ok verify_read addr size
unfolding access_ok
access_ok-write_eq_read addr size = ground arith
