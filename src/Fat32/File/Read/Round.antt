-- ===== src/Fat32/File/Read/Round.antt =====
-- One round of `fat32_read`, and how rounds add up.
use minios_grub_bootloader.Base.{
  ℕ, suc, ◌+◌, ◌*◌, ◌/◌, ◌%◌, ◌^◌, ◌≤◌, ◌<◌, ◌≡◌, refl, sym, ap, ap₂, ◌∙◌, Option, some, List, ◌++◌,
  append-nil, append_assoc, arith, u32, take, drop,
}
use minios_grub_bootloader.Fat32.Table.Data.{cluster_bytes}
use minios_grub_bootloader.Disk.{Disk, Driver, Reads, IsFormatted}
use minios_grub_bootloader.Disk.Memory.{length-sectors}
use minios_grub_bootloader.Fat32.Types.{Context, IsMounted, InRange, File}
use minios_grub_bootloader.Fat32.Table.{fat32_next_cluster, fat32_read_cluster}
use minios_grub_bootloader.Fat32.Table.Entry.{fat32_read_cluster_lem}
use minios_grub_bootloader.Fat32.File.{Got, advance}
use minios_grub_bootloader.Fat32.File.Contents.{
  nth_cluster, contents, contents-add, contents_of_cluster, div_of_parts, mod_of_parts,
}
use native.Mathlib.Decide.{dec_lt}

-- An open file whose chain is long enough for its size, and whose position, unless it is at the
-- end, is the cluster and the offset that its file offset stands for.
pub record IsOpen (drv : Driver) (ctx : Context) (d : Disk) (f : File) : Type 0 where
  pub chain :
      (k : ℕ)
      → k * ctx.cluster_size < f.size
      → InRange ctx (nth_cluster drv ctx d f.start_cluster k)
  pub size_fits : f.size + ctx.cluster_size ≤ 2 ^ 32
  pub offset_in : f.file_offset ≤ f.size
  pub cluster_at :
      f.file_offset < f.size
      → f.current_cluster ≡ nth_cluster drv ctx d f.start_cluster (f.file_offset / ctx.cluster_size)
  pub within_cluster : f.file_offset < f.size → f.cluster_offset ≡ f.file_offset % ctx.cluster_size

-- What a read of `n` bytes does from the file `f`.
pub record IsRead (drv : Driver) (ctx : Context) (d : Disk) (f : File) (before : List ℕ)
    (bytes_read n : ℕ) (answer : Option Got) : Type 0 where
  pub got : Got
  pub returns : answer ≡ some got
  pub count : got.count ≡ bytes_read + n
  pub out : got.out ≡ before ++ contents drv ctx d f.start_cluster f.file_offset n
  pub moved : got.file.file_offset ≡ f.file_offset + n
  pub same_start : got.file.start_cluster ≡ f.start_cluster
  pub same_size : got.file.size ≡ f.size
  pub same_kind : got.file.is_dir ≡ f.is_dir
  pub open_after : IsOpen drv ctx d got.file

module _ (drv : Driver) (ctx : Context) (d : Disk) where
  -- A read that ends at once.
  pub IsRead-nothing :
      (f : File) (before : List ℕ) (bytes_read n : ℕ)
      → n ≡ 0
      → IsOpen drv ctx d f
      → IsRead drv ctx d f before bytes_read n
          (some (record { count = bytes_read; out = before; file = f }))
  unfolding contents
  IsRead-nothing f before bytes_read n e o = rw e (record {
    got = record { count = bytes_read; out = before; file = f };
    returns = refl;
    count = omega arith;
    out = sym (append-nil before);
    moved = omega arith;
    same_start = refl;
    same_size = refl;
    same_kind = refl;
    open_after = o;
  })

  -- A read that goes on after `a` bytes.
  pub IsRead-more :
      (f f' : File) (before : List ℕ) (bytes_read a b n : ℕ) (answer : Option Got)
      → n ≡ a + b
      → f'.file_offset ≡ f.file_offset + a
      → f'.start_cluster ≡ f.start_cluster
      → f'.size ≡ f.size
      → f'.is_dir ≡ f.is_dir
      → IsRead drv ctx d f'
          (before ++ contents drv ctx d f.start_cluster f.file_offset a)
          (bytes_read + a)
          b
          answer
      → IsRead drv ctx d f before bytes_read n answer
  IsRead-more f f' before bytes_read a b n answer e moved start size kind r = rw e (record {
    got = r.got;
    returns = r.returns;
    count = omega (arith, r.count);
    out =
        r.out
        ∙ ap₂
            (λ s o.
              (before ++ contents drv ctx d f.start_cluster f.file_offset a)
              ++ contents drv ctx d s o b)
            start moved
        ∙ append_assoc before (contents drv ctx d f.start_cluster f.file_offset a)
            (contents drv ctx d f.start_cluster (f.file_offset + a) b)
        ∙ ap (λ t. before ++ t) (sym (contents-add drv ctx d f.start_cluster f.file_offset a b));
    moved = omega (arith, r.moved);
    same_start = r.same_start ∙ start;
    same_size = r.same_size ∙ size;
    same_kind = r.same_kind ∙ kind;
    open_after = r.open_after;
  })

-- One round at a file that is not at its end, which takes `n` bytes of the current cluster.
module _ (drv : Driver) (ctx : Context) (d : Disk) (m : IsMounted ctx) (f : File)
    (o : IsOpen drv ctx d f) (below : f.file_offset < f.size) (n : ℕ)
    (fits : f.file_offset + n ≤ f.size)
    (part : f.file_offset % ctx.cluster_size + n ≤ ctx.cluster_size) where
  cluster_pos : 0 < ctx.cluster_size
  cluster_pos = omega (arith, m.cluster_bytes, m.cluster_pos)

  split :
      f.file_offset
      ≡ f.file_offset / ctx.cluster_size * ctx.cluster_size + f.file_offset % ctx.cluster_size
  split = let p = cluster_pos in grind arith

  pub moved : u32 (f.file_offset + n) ≡ f.file_offset + n
  moved = let p = cluster_pos in omega (arith, o.size_fits)

  in_range : InRange ctx (nth_cluster drv ctx d f.start_cluster (f.file_offset / ctx.cluster_size))
  in_range = o.chain (f.file_offset / ctx.cluster_size) (omega (arith, split))

  pub bytes_here :
      (reads : Reads drv)
      → fat32_read_cluster drv ctx f.current_cluster d
        ≡ some (
            cluster_bytes ctx d
              (nth_cluster drv ctx d f.start_cluster (f.file_offset / ctx.cluster_size)))
  bytes_here reads = rw (o.cluster_at below) (fat32_read_cluster_lem reads m _ d in_range)

  pub taken :
      IsFormatted d
      → take n (
          drop (f.file_offset % ctx.cluster_size) (
            cluster_bytes ctx d
              (nth_cluster drv ctx d f.start_cluster (f.file_offset / ctx.cluster_size))))
        ≡ contents drv ctx d f.start_cluster f.file_offset n
  taken formatted =
      contents_of_cluster drv ctx d f.start_cluster (f.file_offset / ctx.cluster_size)
        (f.file_offset % ctx.cluster_size) n
        (length-sectors d _ ctx.sectors_per_cluster formatted ∙ omega (arith, m.cluster_bytes)) part
      ∙ ap (λ i. contents drv ctx d f.start_cluster i n) (sym split)

  -- The offset in the cluster after the round.
  pub cluster_moved : (advance f n).cluster_offset ≡ f.file_offset % ctx.cluster_size + n
  cluster_moved = let w = o.within_cluster below in omega (arith, o.size_fits)

  now :
      u32 (f.file_offset + n)
      ≡ f.file_offset / ctx.cluster_size * ctx.cluster_size + (f.file_offset % ctx.cluster_size + n)
  now = omega (arith, moved, split)

  now_next :
      f.file_offset % ctx.cluster_size + n ≡ ctx.cluster_size
      → u32 (f.file_offset + n) ≡ suc (f.file_offset / ctx.cluster_size) * ctx.cluster_size + 0
  now_next all = omega (arith, now)

  pub IsOpen-within :
      f.file_offset % ctx.cluster_size + n < ctx.cluster_size → IsOpen drv ctx d (advance f n)
  IsOpen-within less = record {
    chain = o.chain;
    size_fits = o.size_fits;
    offset_in = rw moved fits;
    cluster_at = λ h.
        o.cluster_at below
        ∙ ap (nth_cluster drv ctx d f.start_cluster) (
            sym (
              ap (λ t. t / ctx.cluster_size) now
              ∙ div_of_parts (f.file_offset / ctx.cluster_size) ctx.cluster_size _ less));
    within_cluster = λ h.
        cluster_moved
        ∙ sym (
            ap (λ t. t % ctx.cluster_size) now
            ∙ mod_of_parts (f.file_offset / ctx.cluster_size) ctx.cluster_size _ less);
  }

  pub IsOpen-next :
      f.file_offset % ctx.cluster_size + n ≡ ctx.cluster_size
      → IsOpen drv ctx d (record (advance f n) {
        current_cluster = fat32_next_cluster drv ctx f.current_cluster d;
        cluster_offset = 0;
      })
  unfolding nth_cluster
  IsOpen-next all = record {
    chain = o.chain;
    size_fits = o.size_fits;
    offset_in = rw moved fits;
    cluster_at = λ h.
        ap (λ c. fat32_next_cluster drv ctx c d) (o.cluster_at below)
        ∙ ap (nth_cluster drv ctx d f.start_cluster) (
            sym (
              ap (λ t. t / ctx.cluster_size) (now_next all)
              ∙ div_of_parts (suc (f.file_offset / ctx.cluster_size)) ctx.cluster_size 0
                  cluster_pos));
    within_cluster = λ h. sym (
        ap (λ t. t % ctx.cluster_size) (now_next all)
        ∙ mod_of_parts (suc (f.file_offset / ctx.cluster_size)) ctx.cluster_size 0 cluster_pos);
  }

  pub IsOpen-end :
      f.file_offset % ctx.cluster_size + n ≡ ctx.cluster_size
      → fat32_next_cluster drv ctx f.current_cluster d ≡ 0
      → (f.file_offset + n ≡ f.size)
        × IsOpen drv ctx d (record (advance f n) { current_cluster = 0 })
  unfolding nth_cluster
  IsOpen-end all none_next = (
    at_end,
    record {
      chain = o.chain;
      size_fits = o.size_fits;
      offset_in = rw moved fits;
      cluster_at = λ h. absurd (omega (arith, moved, at_end));
      within_cluster = λ h. absurd (omega (arith, moved, at_end));
    },
  )
    where
      no_next :
          fat32_next_cluster drv ctx
            (nth_cluster drv ctx d f.start_cluster (f.file_offset / ctx.cluster_size))
            d
          ≡ 0
      no_next = rw (o.cluster_at below) at none_next

      at_end : f.file_offset + n ≡ f.size
      at_end = elim (dec_lt (f.file_offset + n) f.size) [
        | yes less ↦
            let r =
              o.chain (suc (f.file_offset / ctx.cluster_size))
                (omega (arith, now_next all, moved)) in
            absurd (omega (arith, r.0, no_next))
        | no full ↦ omega arith
      ]
