-- ===== src/Vmm/Truncate.antt =====
-- `vmm_map_page` of src/vmm.c on a physical address of more than 52 bits.
use safira_uraa.Base.{ℕ, ◌%◌, ◌^◌, ◌≡◌, refl}
use safira_uraa.Vmm.{Space, Store, Found, missing, at, install, map_page}
use safira_uraa.Vmm.Bits.{low_frame}

install-low :
    {W : Type 0} (out : Found × Store W) (index p f : ℕ)
    → install out index (p % 2 ^ 52) f ≡ install out index p f
unfolding install
install-low (missing rc, m) index p f = refl
install-low (at table, m) index p f = rw (low_frame p f).1 refl

module _ {W : Type 0} (space : Space W) (m : Store W) where
  -- A mapping of any physical address does what a mapping of its low 52 bits does: an address
  -- that does not fit an entry is not refused.
  pub map_page-truncates : (v p f : ℕ) → map_page space m v (p % 2 ^ 52) f ≡ map_page space m v p f
  unfolding map_page
  map_page-truncates v p f = rw (low_frame p f).0 (rw (install-low _ _ p f) refl)
