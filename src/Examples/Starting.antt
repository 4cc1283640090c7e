-- ===== src/Examples/Starting.antt =====
-- The image, and the start of the kernel, at concrete files and states.
use so.Common.{
  ℕ, zero, suc, ◌+◌, ◌-◌, ◌≡◌, ◌≢◌, refl, true, List, [], ◌∷◌, ◌++◌, some, arith, length, take,
  drop, ◌==◌, if◌then◌else◌,
}
use so.ListHead.{null}
use so.Build.{Os, put_bytes, get_bytes}
use so.Build.Calls.{Behaves, Returns}
use so.Build.Image.{image}
use so.Build.Contents.{IsImage, main-IsImage}
use so.Build.Boot.{IsBootFile}
use so.Interrupt.{Handlers}
use so.Machine.{Safe}
use so.Sched.Boot.{first_childs, first_rings}
use so.Segment.{Descriptor, set_gdt, set_tss}
use so.Segment.Base.{base_of, set_gdt-base_of}
use so.System.{System, main, kernel_start}
use so.System.Started.{main-Safe}
use so.Examples.State.{layout, layout-IsLayout, kernel}

abbrev entries : ℕ → Descriptor
entries i = record {
  limit = 0x67;
  low_base = 0;
  mid_base = 0;
  flags1 = 0x89;
  flags2 = 0;
  high_base = 0;
}

abbrev pub handlers : Handlers
handlers = record {
  keyboard_handler = 0x10400;
  clock_handler = 0x10500;
  segmentation_fault_handler = 0x10600;
  system_call_handler = 0x10700;
}

-- What the loader leaves.
abbrev pub loaded_system : System
loaded_system = record {
  kernel = record kernel {
    links = record { next = λ p. null; prev = λ p. null };
    tasks = λ u. record (kernel.tasks u) { parent = null };
    last_pid = 1;
  };
  gdt = entries;
  gdt_r = record { limit = 0; base = 0 };
  idt = λ i. record { low_offset = 0; segment_selector = 0; flags = 0; high_offset = 0 };
  tss = set_tss layout;
  cr0 = 1;
}

-- A kernel of 16 bytes and a program of three bytes.
abbrev sys_file : List ℕ
sys_file = 0 ∷ 0 ∷ 0 ∷ 0 ∷ 0 ∷ 0 ∷ 0 ∷ 0 ∷ 0 ∷ 0 ∷ 0 ∷ 0 ∷ 1 ∷ 2 ∷ 3 ∷ 4 ∷ []

abbrev usr_file : List ℕ
usr_file = 7 ∷ 8 ∷ 9 ∷ []

abbrev zeros : ℕ → List ℕ
zeros zero = []
zeros (suc n) = 0 ∷ zeros n

abbrev boot_file : List ℕ
boot_file = 1 ∷ 3 ∷ 0x10 ∷ 4 ∷ 0x20 ∷ zeros 27 ++ zeros 510 ++ 0x55 ∷ 0xAA ∷ []

-- Memory with the image behind its first 512 bytes.
abbrev pub loaded : ℕ → ℕ
loaded a = image boot_file sys_file usr_file (λ i. 0) (512 + (a - kernel_start))

set_gdt-base_of_example :
    let d = (set_gdt 0x12345 entries).0 in
    (base_of (d 6) ≡ 0x12345)
    × (((d 6).limit ≡ 0x67) × ((d 6).flags1 ≡ 0x89) × ((d 6).flags2 ≡ 0))
    × ((i : ℕ) → i ≢ 6 → d i ≡ entries i)
set_gdt-base_of_example = set_gdt-base_of 0x12345 entries (omega arith)

main-Safe_example :
    Safe layout
      (first_childs layout-IsLayout)
      (record (main layout 0x12345 (λ i. i) handlers loaded loaded_system).0.0.kernel {
        esp = 0x21F00;
      })
      (first_rings layout-IsLayout)
      0x21000
main-Safe_example =
    main-Safe layout-IsLayout 0x12345 (λ i. i) handlers loaded loaded_system (λ p. (refl, refl))
      (λ u. refl) (λ u. omega arith) 0x21F00 (omega arith, omega arith)

-- An operating system with the three files: what is unread, and the output with its offset.
record Files : Type 0 where
  rest : List ℕ
  offset : ℕ
  bytes : ℕ → ℕ
  size : ℕ

abbrev file : ℕ → List ℕ
file i = if i == 1 then boot_file else if i == 2 then sys_file else usr_file

abbrev calls : Os Files
calls = record {
  open_file = λ i w. (true, record w { rest = file i; size = length (file i) });
  read = λ n w. (some (take n w.rest), record w { rest = drop n w.rest });
  write = λ xs w. (
    some (length xs),
    record w { offset = w.offset + length xs; bytes = put_bytes w.offset xs w.bytes },
  );
  file_size = λ w. some w.size;
  seek = λ p w. (some p, record w { offset = p });
  close = λ w. w;
}

calls-Behaves : Behaves calls file
calls-Behaves = record {
  unread = λ w. w.rest;
  at = λ w. w.offset;
  out = λ w. w.bytes;
  open_file = λ i w. (refl, refl, refl, refl);
  read = λ n w. (refl, refl, refl, refl);
  write = λ xs w. (refl, refl, refl, refl);
  file_size = λ i w. refl;
  seek = λ p w. (refl, refl, refl);
  close = λ w. (refl, refl);
}

boot_file-IsBootFile : IsBootFile boot_file
boot_file-IsBootFile = record {
  length_544 = refl;
  magic = refl;
  no_data = refl;
  no_bss = refl;
  no_entry = refl;
  no_symbols = refl;
  flag = (refl, refl);
}

abbrev fresh : Files
fresh = record { rest = []; offset = 0; bytes = λ i. 0; size = 0 }

main-IsImage_example :
    Returns
      (λ c w. IsImage boot_file sys_file usr_file w.bytes)
      (so.Build.main calls (λ i. 0) fresh)
unfolding calls-Behaves
main-IsImage_example =
    main-IsImage calls-Behaves boot_file-IsBootFile (omega arith) (omega arith) (λ i. 0) fresh refl
