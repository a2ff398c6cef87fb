-- ===== src/Lib.antt =====
-- minios_grub_bootloader: a small 32-bit kernel in C, its C library, its FAT32 file system, its
-- memory and its processes, modelled function by function.
--
-- The parts and the files that model them. Paths are those of the repository; a definition has the
-- name of the C function, constant or field that it models, and a comment names it where a
-- reserved or shared name made that impossible.
--
-- - `Libc`: libc/src. `Libc.Ctype` is ctype.c, `Libc.Memory` is memory.c over a memory of bytes,
--   `Libc.Strings` is string.c, where a string is the list of the bytes before its NUL and a
--   pointer into it the list from there on. `Kmalloc` works on the memory and `Tty` on the
--   strings.
-- - `Disk`: what the file system asks of the driver kernel/src/drivers/pata_pio.c, as a record of
--   two operations and two laws: a read gives the bytes of the sectors, and a write of one sector
--   stores some image of its buffer. The image is an argument, since the words that the driver
--   sends are not those of the buffer: `Ata.Transfer.sector_image` is what they make. No statement
--   rests on a disk that keeps the bytes of a write as they are. `Disk.Ram` is a disk in memory.
--   `Ata`: the driver itself over any device behind the ports.
-- - `Fat32`: kernel/src/fs/fat32.c with kernel/include/fs/fat32.h, over any driver. `Fat32.Types`
--   has the structures and what a mounted volume is, `Fat32.Init` mounting, `Fat32.Table` the
--   allocation table, `Fat32.File` reading and positioning a file, `Fat32.File.Line` reading a
--   line, `Fat32.Stamp` the packed time and date, `Fat32.Names` directory entries and their names,
--   `Fat32.Dir` the directories, `Fat32.Path` the paths, `Fat32.Write` writing and `Fat32.Change`
--   making and removing files and directories. The disk is passed from call to call; `Fat32.Io`
--   adds the two ways not to return, a panic of the clock and a loop that has used up its turns.
--   What the array of `fat32_read_dir` holds when it has not been filled is an argument, of which
--   nothing is assumed.
-- - `Pmm`: kernel/src/mm/pmm.c with kernel/include/mm/pmm.h and mmu.h: two bitmaps, the page
--   directory and the page tables in one state. `kpanic` does not return, so a panic is an outcome
--   of its own, as is the fault of clearing a page that has not been mapped; a bit that is cleared
--   past the end of a bitmap is kept apart in the state.
-- - `Vmm`: kernel/src/mm/vmm.c on the state of `Pmm`. A directory is that of the kernel or a page
--   of memory; the entries of both kinds have their bits at the same places.
-- - `Process`: kernel/src/process.c on `Vmm`, `Pmm` and the memory of `Libc.Memory`, with the
--   table of processes. A panic and a loop without an end are results of their own.
-- - `Scheduler`: kernel/src/scheduler.c on `Process`, with the messages of a halt as part of the
--   outcome, which `Cpu.Irq` prints; `switch_context` of x86.s is an argument. `Syscall`:
--   kernel/src/cpu/syscall.c on `Scheduler`, `Keyboard` and `Tty`.
-- - `Kmalloc`: kernel/src/utils/kmalloc.c over the memory of `Libc.Memory`.
-- - `Tty`: kernel/src/drivers/tty.c with kernel/include/vga.h: the cells of the screen and the
--   cursor. `Tty.Cursor` has the registers of the cursor. `Kprintf` (kernel/src/utils/kprintf.c)
--   prints on it, and `Kprintf.Panic` is kernel/src/utils/kpanic.c.
-- - `Keyboard`: kernel/src/drivers/keyboard.c: the handler of the interrupt and the ring that it
--   shares with `keyboard_getchar`.
-- - `Cmos`: kernel/src/drivers/cmos.c over the values of the registers; `Cmos.Registers` reads and
--   writes them through the ports.
-- - `Ports`: a device behind a port that selects a register and a port for its value, which the
--   clock and the cursor are.
-- - `Cpu`: kernel/src/cpu without the system calls. `Cpu.Gdt` is gdt.c, `Cpu.Idt` is idt.c,
--   `Cpu.Pic` is pic.c with the programming of the timer, and `Cpu.Irq` is irq.c with
--   `timer_handler` and `timer_init` of kernel/src/drivers/timer.c and `keyboard_init`: a request
--   goes through the installed handler to `Scheduler` or `Keyboard`.
-- - `Config`: kernel/src/utils/config.c on `Fat32.File.Line` and `Libc.Strings`.
-- - `Base`: lists as C arrays, fixed-width words, bits, little-endian fields.
--
-- A module of a part has its definitions; the modules below it are named for what they prove, and
-- a part has a module `Examples` with its theorems at concrete data.
--
-- Numbers and loops. Numbers are natural numbers, and the wrap-around of a `uint8_t`, `uint16_t`
-- or `uint32_t` is written out where a value can reach it. A counted loop is structural recursion
-- on the rounds that are left. A loop that the data ends runs on fuel: `fat32_read` on one more
-- turn than the bytes asked for, since each turn but the last takes a byte; `fat32_seek` on one
-- more turn than the offset, since each turn passes a cluster; `find_free_block` on one turn for
-- each header that the heap can hold and one more; the conversion of a number on the 32 places of
-- its buffer; the loop that frees a chain on four turns more than the volume has clusters, which
-- is not shown to be enough; `vmm_mappage` on one turn more than the address space has pages,
-- which is enough unless the last of them is mapped; `fat32_write` on one turn more than the bytes
-- given, `fat32_read_line` on one turn more than the room of its buffer, `config_get_str` on one
-- turn more than the bytes of the file, and `fat32_open_file` on one more than the characters of
-- the path. The waiting loops of the disk driver get a number of polls as an argument, since the
-- device decides. The loops over the entries of a directory get a number of turns as an argument,
-- since a chain that is a circle would keep them going. The loop over the sectors of a write has
-- the turns of its 16-bit index. For all but the loop that frees a chain, those of
-- `fat32_open_file` and the directories of several clusters, that these are enough is part of the
-- theorems.
--
-- Not modelled: `kmain`, which calls the parts in order; the structure of spin locks, which has no
-- operations; the master boot record; `config_get_int`, which has no body; single privileged
-- instructions and the assembly code, with the loading of the tables, the control registers and
-- the interrupt flag. The bytes of a page that a process gets and the page tables are two views of
-- memory, which the model keeps apart. The field `fsinfo` of a volume is filled and never read,
-- and left out.
pub mod Base
pub mod Libc
pub mod Disk
pub mod Ata
pub mod Fat32
pub mod Pmm
pub mod Vmm
pub mod Process
pub mod Scheduler
pub mod Syscall
pub mod Tty
pub mod Keyboard
pub mod Kprintf
pub mod Kmalloc
pub mod Cmos
pub mod Ports
pub mod Cpu
pub mod Config
