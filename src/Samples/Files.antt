-- ===== src/Samples/Files.antt =====
-- The theorems about kernel/src/tmpfs.rs at concrete inputs: two files, /tmp/a with handle 0 and /tmp/b with handle 1.
use dbsos.Common.{
  ℕ, ◌≡◌, refl, Option, none, some, arith, bytes_eq, find_from, update, List, [], ◌∷◌, count_from,
}
use dbsos.Tmpfs.{
  TmpFile, Tmpfs, empty, new_file, tmp_open, tmp_read, tmp_write, tmp_close, find, free_slot,
  free_handle,
}
use dbsos.Tmpfs
use dbsos.Tmpfs.Path
use dbsos.Tmpfs.Path.{norm, has_slash, norm_idempotent}
use dbsos.Tmpfs.Copy.{load, store}
use dbsos.Tmpfs.Dir.{tmp_stat, StatInfo, tmp_unlink, tmp_readdir}
use dbsos.Tmpfs.Dir
use dbsos.Tmpfs.Invariant.{Inv, in_use_count}
use dbsos.Tmpfs.Calls.{Call, opens, closes, writes, unlinks, run_calls, run_calls-Inv}
use dbsos.Tmpfs.Contents.{tmp_read-tmp_write, tmp_read_gap}

calls : Unit {0}
unfolding norm Path.strip_leading Path.strip_trailing Path.trim Path.last_slash bytes_eq find
    free_slot free_handle find_from update tmp_open tmp_read tmp_write tmp_unlink Tmpfs.create
    Tmpfs.open_existing Tmpfs.write_at Dir.remove Dir.close_all tmp_stat load store
calls = tt

abbrev path_a : List ℕ
path_a = 47 ∷ 97 ∷ []

abbrev path_c : List ℕ
path_c = 47 ∷ 99 ∷ 47 ∷ []

abbrev no_files : Tmpfs
no_files = record { files = λ i. empty; handles = λ h. none; memory = λ i. 7; buffers = 0 }

-- `handles` is what the handle table holds from 2 on.
abbrev two_files : Option ℕ → Tmpfs
two_files rest = record {
  files =
      update (update (λ i. empty) 0 (new_file (97 ∷ []) 65536 empty)) 1
        (new_file (98 ∷ []) 131072 empty);
  handles = update (update (λ h. rest) 0 (some 0)) 1 (some 1);
  memory = λ i. 7;
  buffers = 2;
}

-- Opening /a and /b, one after the other, gives these two files.
opened :
    (tmp_open (47 ∷ 98 ∷ []) 0x100 131072 (tmp_open path_a 0x100 65536 no_files).0).0
    ≡ two_files none
unfolding calls
opened = refl

no_files-Inv : Inv no_files
unfolding Inv in_use_count count_from
no_files-Inv = ((λ i u. cc u), (λ h l. tt), refl)

abbrev session : List Call
session = opens path_a 0x100 65536 ∷ writes 0 (1 ∷ 2 ∷ []) 3 ∷ closes 0 ∷ unlinks path_a ∷ []

run_calls-Inv_example : Inv (run_calls session no_files)
run_calls-Inv_example = run_calls-Inv session no_files no_files-Inv

tmp_read-tmp_write_example :
    ((tmp_write 0 (1 ∷ 2 ∷ []) 0 (two_files none)).1 ≡ some 2)
    × (tmp_read 0 2 0 (tmp_write 0 (1 ∷ 2 ∷ []) 0 (two_files none)).0 ≡ some (2, 1 ∷ 2 ∷ []))
unfolding calls
tmp_read-tmp_write_example =
    tmp_read-tmp_write (two_files none) 0 0 (1 ∷ 2 ∷ []) 0 (omega arith) refl (omega arith)
      (omega arith)

tmp_read_gap_example :
    tmp_read 0 3 0 (tmp_write 0 (1 ∷ 2 ∷ []) 3 (two_files none)).0 ≡ some (3, 7 ∷ 7 ∷ 7 ∷ [])
unfolding calls
tmp_read_gap_example =
    tmp_read_gap (two_files none) 0 0 (1 ∷ 2 ∷ []) 3 (omega arith) refl (omega arith) (omega arith)
      (omega arith)
