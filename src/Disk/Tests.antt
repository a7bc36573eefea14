-- ===== src/Disk/Tests.antt =====
-- A drive whose bytes are their places modulo 256, and a transfer of 300 sectors, two commands.
use restore_the_operating_sy.Base.{◌≡◌, refl, true, arith, ◌%◌}
use restore_the_operating_sy.Base.Word.{ok}
use restore_the_operating_sy.Disk.{Drive, ide_read, ide_write}
use restore_the_operating_sy.Disk.Transfer.{fetched, stored, ide_read-fetched, ide_write-stored}

abbrev drive : Drive
drive = record { bytes = λ p. p % 256; ready = true }

ide_read-fetched_example : ide_read drive 10 (λ _. 0) 300 ≡ ok (fetched drive 10 (λ _. 0) 0 300)
ide_read-fetched_example = ide_read-fetched drive 10 (λ _. 0) 300 refl (omega arith) (omega arith)

ide_write-stored_example : ide_write drive 10 (λ _. 1) 300 ≡ ok (stored drive 10 (λ _. 1) 0 300)
ide_write-stored_example = ide_write-stored drive 10 (λ _. 1) 300 refl (omega arith) (omega arith)
