-- ===== src/Disk/Tests.antt =====
-- A drive that works: two disks of 512-byte sectors, which are its whole state.
use os.Base.{ℕ, not, ◌+◌, ◌-◌, ◌*◌, ◌/◌, ◌%◌, Bool, true, ◌&&◌, refl, if◌then◌else◌}
use os.Disk.{Drive, IsDrive, covers}

abbrev pub Disks : Type 0
Disks = Bool → ℕ → ℕ → ℕ

abbrev pub disks : Drive
disks = record {
  State = Disks;
  read = λ s b lba n. (true, λ k. s b (lba + k / 512) (k % 512));
  write = λ s b lba n buf. (
    true,
    λ d l k.
        if (if d then b else not b) && covers lba n l then buf ((l - lba) * 512 + k) else s d l k,
  );
  flush = λ s b. s;
}

abbrev pub disks-IsDrive : IsDrive disks
disks-IsDrive = record {
  sector = λ s. s;
  read_ok = λ s b lba n. refl;
  write_ok = λ s b lba n buf. refl;
  sector-write = λ s lba n buf l k. refl;
  sector-flush = λ s b l k. refl;
}
