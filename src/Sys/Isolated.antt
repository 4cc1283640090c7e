-- ===== src/Sys/Isolated.antt =====
-- The loops of `sys_fork` on tables that are isolated.
use so.Common.{ℕ, ◌+◌, ◌*◌, ◌<◌, ◌≡◌, ◌≢◌, arith, ◌∙◌}
use so.Mm.Paging.{Memory, nr_tasks, num_pag_data}
use so.Mm.Isolation.{IsIsolated}
use so.Sys.Fork.{Ends, all_copied, out_of_frames, fork_data-Ends}
use so.Sys.{share_code, fork_data, Forked, copied, no_frame}
use so.Sys.Sharing.{share_code-entries, shared-IsIsolated}
use so.Sys.Apart.{Copied-IsIsolated}
use so.Sys.Reverted.{Undone-IsIsolated}

-- What the loop leaves of memory.
abbrev pub left_memory : Forked → Memory
left_memory (copied m) = m
left_memory (no_frame pag m) = m

-- Whichever way the loop ends.
Ends-IsIsolated :
    {tables c p : ℕ} {m : Memory} {o : Forked}
    → c < nr_tasks
    → p < nr_tasks
    → c ≢ p
    → IsIsolated tables m
    → Ends (tables + 4096 * c) (tables + 4096 * p) m o
    → IsIsolated tables (left_memory o)
Ends-IsIsolated child parent other s (all_copied m' enough a) =
    Copied-IsIsolated child parent other s a
Ends-IsIsolated child parent other s (out_of_frames pag m' few some a) =
    Undone-IsIsolated child parent other s some a

-- In tables that are isolated, the loops of `sys_fork` on the pages of two different tasks leave
-- the tables isolated, whether or not the frames run out.
pub fork_data-IsIsolated :
    {tables c p : ℕ} {m : Memory}
    → c < nr_tasks
    → p < nr_tasks
    → c ≢ p
    → IsIsolated tables m
    → let ptn = tables + 4096 * c in
      let ptc = tables + 4096 * p in
      IsIsolated tables (left_memory (fork_data ptn ptc num_pag_data 0 (share_code ptn ptc m)))
fork_data-IsIsolated {tables} {c} {p} {m} child parent other s =
    let shared = shared-IsIsolated child parent other s in
    Ends-IsIsolated child parent other shared (
      fork_data-Ends (tables + 4096 * c) (tables + 4096 * p) (λ e. other (omega arith))
        (share_code (tables + 4096 * c) (tables + 4096 * p) m)
        (λ j lj. shared.data_busy p j parent lj))

Ends-directories :
    {ptn ptc : ℕ} {m : Memory} {o : Forked}
    → Ends ptn ptc m o
    → (t : ℕ) → (left_memory o).entries t 0 ≡ m.entries t 0
Ends-directories (all_copied m' enough a) t = a.entries t 0 (ground arith) (ground arith)
Ends-directories (out_of_frames pag m' few some a) t = a.entries t 0 (ground arith) (ground arith)

-- The loops of `sys_fork` leave all directories alone.
pub fork_data-directories :
    {tables c p : ℕ} {m : Memory}
    → c < nr_tasks
    → p < nr_tasks
    → c ≢ p
    → IsIsolated tables m
    → (t : ℕ)
    → let ptn = tables + 4096 * c in
      let ptc = tables + 4096 * p in
      (left_memory (fork_data ptn ptc num_pag_data 0 (share_code ptn ptc m))).entries t 0
      ≡ m.entries t 0
fork_data-directories {tables} {c} {p} {m} child parent other s t =
    let ptn = tables + 4096 * c in
    let ptc = tables + 4096 * p in
    let ne : ptn ≢ ptc = (λ e. other (omega arith)) in
    Ends-directories
      (fork_data-Ends ptn ptc ne (share_code ptn ptc m)
        (λ j lj. (shared-IsIsolated child parent other s).data_busy p j parent lj))
      t
    ∙ ground (arith, share_code-entries ptn ptc m t 0 ne)
