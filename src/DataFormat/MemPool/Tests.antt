-- ===== src/DataFormat/MemPool/Tests.antt =====
-- The theorems of the pool at a pool of three pages, of which the first is in use.
use flp_prototype.Base.{zero, suc, ◌≡◌, refl, arith, true, false, [], ◌∷◌, done}
use flp_prototype.Base.Int.{pos, negsuc}
use flp_prototype.DataFormat.MemPool.{MemPool, get_page, release_page}
use flp_prototype.DataFormat.MemPool.Places.{IsPool}
use flp_prototype.DataFormat.MemPool.Get.{Gets, get_page_lem}
use flp_prototype.DataFormat.MemPool.Release.{
  IsDistinct, released, release_page_lem, GivesBack, release_page-get_page,
}

abbrev three : MemPool
three = record {
  number_of_pages = 3;
  page_size = 4096;
  page_table = 0x1000 ∷ 0x3000 ∷ 0x2000 ∷ [];
  page_is_used = true ∷ false ∷ false ∷ [];
  last_page_index_get = pos 2;
  last_page_index_release = negsuc 0;
}

three-IsPool : IsPool three
three-IsPool = record {
  pages_lem = refl;
  used_lem = refl;
  get_le = omega arith;
  release_le = omega arith;
}

three-IsDistinct : IsDistinct three.page_table
three-IsDistinct zero zero page h k = refl
three-IsDistinct zero (suc zero) page h k = absurd (ground (arith, h, k))
three-IsDistinct zero (suc (suc zero)) page h k = absurd (ground (arith, h, k))
three-IsDistinct (suc zero) zero page h k = absurd (ground (arith, h, k))
three-IsDistinct (suc zero) (suc zero) page h k = refl
three-IsDistinct (suc zero) (suc (suc zero)) page h k = absurd (ground (arith, h, k))
three-IsDistinct (suc (suc zero)) zero page h k = absurd (ground (arith, h, k))
three-IsDistinct (suc (suc zero)) (suc zero) page h k = absurd (ground (arith, h, k))
three-IsDistinct (suc (suc zero)) (suc (suc zero)) page h k = refl
three-IsDistinct (suc (suc (suc i))) j page h k = cc
three-IsDistinct zero (suc (suc (suc j))) page h k = cc
three-IsDistinct (suc zero) (suc (suc (suc j))) page h k = cc
three-IsDistinct (suc (suc zero)) (suc (suc (suc j))) page h k = cc

get_page_lem_example : Gets three (get_page three)
get_page_lem_example = get_page_lem three three-IsPool

release_page_lem_example :
    (release_page 0x1000 three ≡ done tt (released three 0)) × IsPool (released three 0)
release_page_lem_example = release_page_lem three 0 0x1000 three-IsPool refl three-IsDistinct

release_page-get_page_example : GivesBack three
release_page-get_page_example = release_page-get_page three three-IsPool three-IsDistinct
