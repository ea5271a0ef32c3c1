-- ===== src/Elf/Image.antt =====
-- The headers of mcsos/include/mcsos/user/m11_elf_loader.h, read from the bytes of an image. A
-- byte out of the image reads as 0 here.
use safira_uraa.Base.{ℕ, zero, suc, ◌+◌, ◌*◌, ◌^◌, ◌<◌, List, get_or, take, arith}
use native.Mathlib.Nat.{pow-suc}

-- A little-endian number of `n` bytes at an offset.
unfoldable pub little_endian : ℕ → List ℕ → ℕ → ℕ
little_endian zero image offset = 0
little_endian (suc n) image offset =
    get_or image offset 0 + 256 * little_endian n image (offset + 1)

-- `struct m11_elf64_ehdr`
pub record Ehdr : Type 0 where
  pub e_ident : List ℕ
  pub e_type : ℕ
  pub e_machine : ℕ
  pub e_version : ℕ
  pub e_entry : ℕ
  pub e_phoff : ℕ
  pub e_shoff : ℕ
  pub e_flags : ℕ
  pub e_ehsize : ℕ
  pub e_phentsize : ℕ
  pub e_phnum : ℕ
  pub e_shentsize : ℕ
  pub e_shnum : ℕ
  pub e_shstrndx : ℕ

-- `struct m11_elf64_phdr`
pub record Phdr : Type 0 where
  pub p_type : ℕ
  pub p_flags : ℕ
  pub p_offset : ℕ
  pub p_vaddr : ℕ
  pub p_paddr : ℕ
  pub p_filesz : ℕ
  pub p_memsz : ℕ
  pub p_align : ℕ

abbrev pub ehdr_size : ℕ
ehdr_size = 64

abbrev pub phdr_size : ℕ
phdr_size = 56

unfoldable pub read_ehdr : List ℕ → Ehdr
unfolding little_endian
read_ehdr image = record {
  e_ident = take 16 image;
  e_type = little_endian 2 image 16;
  e_machine = little_endian 2 image 18;
  e_version = little_endian 4 image 20;
  e_entry = little_endian 8 image 24;
  e_phoff = little_endian 8 image 32;
  e_shoff = little_endian 8 image 40;
  e_flags = little_endian 4 image 48;
  e_ehsize = little_endian 2 image 52;
  e_phentsize = little_endian 2 image 54;
  e_phnum = little_endian 2 image 56;
  e_shentsize = little_endian 2 image 58;
  e_shnum = little_endian 2 image 60;
  e_shstrndx = little_endian 2 image 62;
}

unfoldable pub read_phdr : List ℕ → ℕ → Phdr
unfolding little_endian
read_phdr image at = record {
  p_type = little_endian 4 image at;
  p_flags = little_endian 4 image (at + 4);
  p_offset = little_endian 8 image (at + 8);
  p_vaddr = little_endian 8 image (at + 16);
  p_paddr = little_endian 8 image (at + 24);
  p_filesz = little_endian 8 image (at + 32);
  p_memsz = little_endian 8 image (at + 40);
  p_align = little_endian 8 image (at + 48);
}

abbrev pub Bytes : List ℕ → Type 0
Bytes image = (i : ℕ) → get_or image i 0 < 256

pub little_endian-lt :
    (n : ℕ) (image : List ℕ) (offset : ℕ) → Bytes image → little_endian n image offset < 256 ^ n
unfolding little_endian
little_endian-lt zero image offset b = omega arith
little_endian-lt (suc n) image offset b =
    omega (arith, b offset, pow-suc 256 n, little_endian-lt n image (offset + 1) b)
