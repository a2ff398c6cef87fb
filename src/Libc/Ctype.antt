-- ===== src/Libc/Ctype.antt =====
-- libc/src/ctype.c. An argument is the value of an unsigned char. The sources also pass a plain
-- char, which is signed: a negative one is below 'A' and comes back as it is, as its byte does here.
pub mod Case
use minios_grub_bootloader.Base.{ℕ, ◌+◌, ◌-◌, ltb, if◌then◌else◌, ◌||◌}

pub tolower : ℕ → ℕ
tolower c = if ltb c b'A' || ltb b'z' c then c else if ltb c b'a' || ltb b'z' c then c else c + 32

pub toupper : ℕ → ℕ
toupper c = if ltb c b'A' || ltb b'z' c then c else if ltb c b'a' || ltb b'z' c then c else c - 32
