-- ===== src/Memory/Arena/Tests.antt =====
-- Blocks of 512 bytes: seven of them fit into a page behind the header.
use restore_the_operating_sy.Base.{◌≡◌, refl, [], ◌∷◌, arith}
use restore_the_operating_sy.Base.Word.{Returns}
use restore_the_operating_sy.Memory.Arena.{
  MemBlockDesc, block_desc_init, find_desc, arena2block, cut_arena,
}
use restore_the_operating_sy.Memory.Arena.Blocks.{
  IsDesc, IsBlock, Fits, find_desc-Fits, arena2block-IsBlock, cut_arena-blocks,
}

abbrev desc : MemBlockDesc
desc = record { block_size = 512; blocks_per_arena = 7; free_list = [] }

desc-IsDesc : IsDesc desc
desc-IsDesc = record { count = refl; least = omega arith }

find_desc-Fits_example : Fits 300 (find_desc block_desc_init 300)
find_desc-Fits_example = find_desc-Fits 300 (omega arith)

arena2block-IsBlock_example : IsBlock desc 0xc0100000 3 (arena2block desc 0xc0100000 3)
arena2block-IsBlock_example =
    arena2block-IsBlock desc 0xc0100000 3 desc-IsDesc refl (omega arith) (omega arith)

cut_arena-blocks_example :
    Returns
      (λ l.
        l
        ≡ 0xc010000c ∷ 0xc010020c ∷ 0xc010040c ∷ 0xc010060c ∷ 0xc010080c ∷ 0xc0100a0c ∷ 0xc0100c0c
          ∷ [])
      (cut_arena desc 0xc0100000 7 0 [])
cut_arena-blocks_example = cut_arena-blocks desc 0xc0100000 desc-IsDesc refl (omega arith)
