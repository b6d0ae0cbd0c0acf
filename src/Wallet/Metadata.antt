-- ===== src/Wallet/Metadata.antt =====
-- The tests of wallet_abi.rs on the metadata of files, and `valid_elf_executable_header`.
use Prim.Native.Nat.{bit_and}
use hns_dane_browser_extensi.Prelude.{
  ℕ, Bool, ◌&&◌, ◌||◌, not, List, [], ◌∷◌, take, drop, ◌==◌, bytes_eq,
}
use hns_dane_browser_extensi.PoolStats.Bytes.{from_le_bytes}

-- What `fs::Metadata` tells of a file; `mode` is that of `MetadataExt`, with the file type.
pub record Metadata : Type 0 where
  pub is_file : Bool
  pub is_dir : Bool
  pub dev : ℕ
  pub ino : ℕ
  pub uid : ℕ
  pub gid : ℕ
  pub mode : ℕ
  pub nlink : ℕ
  pub len : ℕ
  pub mtime : ℕ
  pub mtime_nsec : ℕ
  pub ctime : ℕ
  pub ctime_nsec : ℕ

-- `mode & mask == 0`
abbrev pub lacks : Metadata → ℕ → Bool
lacks m mask = bit_and m.mode mask == 0

module _ (effective_uid : ℕ) where
  abbrev pub source_is_owned_and_not_shared_writable : Metadata → Bool
  source_is_owned_and_not_shared_writable m = m.uid == effective_uid && lacks m 0o022

  abbrev pub private_directory : Metadata → Bool
  private_directory m = m.is_dir && source_is_owned_and_not_shared_writable m

  unfoldable pub private_regular_file : Metadata → Bool
  private_regular_file m = m.is_file && m.nlink == 1 && source_is_owned_and_not_shared_writable m

  unfoldable pub private_immutable_regular_file : Metadata → Bool
  private_immutable_regular_file m = private_regular_file m && lacks m 0o222

  abbrev pub source_is_executable : Metadata → Bool
  source_is_executable m = not (lacks m 0o111)

  unfoldable pub private_immutable_executable : Metadata → Bool
  private_immutable_executable m = private_immutable_regular_file m && source_is_executable m

  unfoldable pub private_wallet_database_file : Metadata → Bool
  private_wallet_database_file m =
      m.is_file && m.uid == effective_uid && m.nlink == 1 && bit_and m.mode 0o7777 == 0o600

  unfoldable pub private_wallet_database_directory : Metadata → Bool
  private_wallet_database_directory m =
      m.is_dir && m.uid == effective_uid && bit_and m.mode 0o7777 == 0o700

unfoldable pub same_open_directory : Metadata → Metadata → Bool
same_open_directory a b =
    a.is_dir && b.is_dir && a.dev == b.dev && a.ino == b.ino && a.uid == b.uid && a.gid == b.gid

unfoldable pub same_open_file : Metadata → Metadata → Bool
same_open_file a b =
    a.dev == b.dev
    && a.ino == b.ino
    && a.uid == b.uid
    && a.gid == b.gid
    && a.mode == b.mode
    && a.nlink == b.nlink
    && a.len == b.len
    && a.mtime == b.mtime
    && a.mtime_nsec == b.mtime_nsec
    && a.ctime == b.ctime
    && a.ctime_nsec == b.ctime_nsec

unfoldable pub same_wallet_database_identity : Metadata → Metadata → Bool
same_wallet_database_identity a b =
    a.is_file
    && b.is_file
    && a.dev == b.dev
    && a.ino == b.ino
    && a.uid == b.uid
    && a.gid == b.gid
    && a.mode == b.mode
    && a.nlink == b.nlink

-- The magic number of ELF, 64-bit, little-endian, version 1.
abbrev elf_magic : List ℕ
elf_magic = 0x7f ∷ b'E' ∷ b'L' ∷ b'F' ∷ 2 ∷ 1 ∷ 1 ∷ []

abbrev pub u16_at : ℕ → List ℕ → ℕ
u16_at offset header = from_le_bytes (take 2 (drop offset header))

abbrev u32_at : ℕ → List ℕ → ℕ
u32_at offset header = from_le_bytes (take 4 (drop offset header))

-- The header is 24 bytes.
unfoldable pub valid_elf_executable_header : List ℕ → Bool
valid_elf_executable_header header =
    bytes_eq (take 7 header) elf_magic
    && (u16_at 16 header == 2 || u16_at 16 header == 3)
    && u32_at 20 header == 1
