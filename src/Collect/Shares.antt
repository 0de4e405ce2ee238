-- ===== src/Collect/Shares.antt =====
-- The two percentages of the dashboard: of the processor's time and of the file system.
use mobile_config.Base.{
  true, false, ℕ, ◌+◌, ◌-◌, ◌*◌, ◌/◌, ◌%◌, ◌^◌, ◌≡◌, ap, ◌∙◌, ◌<◌, ◌≤◌, some, ℤ, pos, negsuc, ◌+ℤ◌,
  ◌-ℤ◌, ◌*ℤ◌, ltb_ℤ, arith, floor-bounds, ceiling-bounds, share-le, ◌==◌,
}
use mobile_config.Libc.{codes, to_int32-small, wrap64-small}
use mobile_config.Config.{Config, rp}
use mobile_config.Files.{Fs}
use mobile_config.System.{Statvfs}
use mobile_config.Collect.Cpu.{CpuSample, percent_since, sample_of_read, used_sample, cpu_percent}
use mobile_config.Collect.Storage.{usage_of}

add-sub : (a : ℤ) (n : ℕ) → (a +ℤ pos n) -ℤ a ≡ pos n
add-sub (pos a) n = ground arith
add-sub (negsuc a) n = ground arith

-- `p` percent is what `b` is of `t`, rounded down.
pub record IsShare (b t p : ℕ) : Type 0 where
  pub reached : p * t ≤ b * 100
  pub rounded : b * 100 < (p + 1) * t
  pub hundred : p ≤ 100

floor-IsShare : (b t : ℕ) → 0 < t → b ≤ t → IsShare b t (b * 100 / t)
floor-IsShare b t h le =
    let (low, high) = floor-bounds (b * 100) t h in
    record {
      reached = low;
      rounded = high;
      hundred = share-le (b * 100 / t) b t h le (omega (arith, low, h));
    }

percent_since-share :
    (prev : CpuSample) (b t : ℕ)
    → 0 < t
    → b ≤ t
    → b * 100 < 2 ^ 63
    → t < 2 ^ 63
    → percent_since prev (record { busy = prev.busy +ℤ pos b; total = prev.total +ℤ pos t })
      ≡ pos (b * 100 / t)
unfolding percent_since
percent_since-share prev b t h le fits small =
    let less : ltb_ℤ (pos 0) (pos t) ≡ true = ground arith in
    let times : pos b *ℤ pos 100 ≡ pos (b * 100) = ground arith in
    let few = (floor-IsShare b t h le).hundred in
    rw
      (
        add-sub prev.total t,
        add-sub prev.busy b,
        wrap64-small t small,
        wrap64-small b (omega arith),
        less,
        times,
        wrap64-small (b * 100) fits,
      )
      (to_int32-small (b * 100 / t) (omega (arith, few)))

percent_since-grown :
    (prev now : CpuSample) (b t : ℕ)
    → now.busy ≡ prev.busy +ℤ pos b
    → now.total ≡ prev.total +ℤ pos t
    → 0 < t
    → b ≤ t
    → b * 100 < 2 ^ 63
    → t < 2 ^ 63
    → percent_since prev now ≡ pos (b * 100 / t)
percent_since-grown prev now b t eb et h le fits small =
    let same : now ≡ record { busy = prev.busy +ℤ pos b; total = prev.total +ℤ pos t } =
      λ i. record { busy = eb i; total = et i } in
    ap (percent_since prev) same ∙ percent_since-share prev b t h le fits small

-- When the counters of `/proc/stat` have grown since the last sample, the busy ones by no more than all
-- of them, all of them by less than 2^63 and the busy ones by less than a hundredth of it, `cpu_percent` keeps the new sample and gives the share of the busy time in percent, rounded
-- down, which is at most 100.
pub cpu_percent-IsShare :
    (cfg : Config) (fs : Fs) (prev now : CpuSample) (b t : ℕ)
    → sample_of_read (fs.content (rp cfg (codes "/proc/stat"))) ≡ some now
    → now.busy ≡ prev.busy +ℤ pos b
    → now.total ≡ prev.total +ℤ pos t
    → 0 < t
    → b ≤ t
    → b * 100 < 2 ^ 63
    → t < 2 ^ 63
    → (p : ℕ) × (cpu_percent cfg fs prev ≡ (now, pos p)) × IsShare b t p
unfolding cpu_percent used_sample
cpu_percent-IsShare cfg fs prev now b t e eb et h le fits small = (
  b * 100 / t,
  rw e (ap (λ p. (now, p)) (percent_since-grown prev now b t eb et h le fits small)),
  floor-IsShare b t h le,
)

-- The file system's figures make sense: no more blocks are free than there are, some block is used or
-- available, and the sums stay below 2^64.
pub record IsSane (st : Statvfs) : Type 0 where
  pub free : st.bfree ≤ st.blocks
  pub some_block : 0 < st.blocks - st.bfree + st.bavail
  pub small : (st.blocks - st.bfree) * 100 + st.bavail + (st.blocks - st.bfree) < 2 ^ 64

-- `p` percent is what `u` is of `d`, rounded up.
pub record IsShareUp (u d p : ℕ) : Type 0 where
  pub enough : u * 100 ≤ p * d
  pub least : p * d < u * 100 + d
  pub hundred : p ≤ 100

ceiling-IsShareUp : (u d : ℕ) → 0 < d → u ≤ d → IsShareUp u d ((u * 100 + d - 1) / d)
ceiling-IsShareUp u d h le =
    let (low, high) = ceiling-bounds (u * 100) d h in
    record { enough = low; least = high; hundred = share-le ((u * 100 + d - 1) / d) u d h le high }

used_blocks :
    (st : Statvfs) → IsSane st → (st.blocks + 2 ^ 64 - st.bfree) % 2 ^ 64 ≡ st.blocks - st.bfree
used_blocks st h = omega (arith, h.free, h.small)

usage_of-pct :
    (st : Statvfs)
    → IsSane st
    → (usage_of st).pct
      ≡ pos (
          ((st.blocks - st.bfree) * 100 + (st.blocks - st.bfree + st.bavail) - 1)
          / (st.blocks - st.bfree + st.bavail))
unfolding usage_of
usage_of-pct st h =
    let u = st.blocks - st.bfree in
    let d = u + st.bavail in
    let used : (st.blocks + 2 ^ 64 - st.bfree) % 2 ^ 64 ≡ u = used_blocks st h in
    let whole : (u + st.bavail) % 2 ^ 64 ≡ d = omega (arith, h.small) in
    let some_of : (d == 0) ≡ false = ground (arith, h.some_block) in
    let product : (u * 100 + d + 2 ^ 64 - 1) % 2 ^ 64 ≡ u * 100 + d - 1 =
      omega (arith, h.small, h.some_block) in
    let few = (ceiling-IsShareUp u d h.some_block (omega arith)).hundred in
    rw (used, whole, some_of, product) (to_int32-small ((u * 100 + d - 1) / d) (omega (arith, few)))

-- For sane figures `disk_usage` gives the share of the used blocks, in percent rounded up, among those
-- that are used or available, as `df` does; it is at most 100.
pub usage_of-IsShareUp :
    (st : Statvfs)
    → IsSane st
    → (p : ℕ) × ((usage_of st).pct ≡ pos p)
      × IsShareUp (st.blocks - st.bfree) (st.blocks - st.bfree + st.bavail) p
usage_of-IsShareUp st h = (
  _,
  usage_of-pct st h,
  ceiling-IsShareUp (st.blocks - st.bfree) (st.blocks - st.bfree + st.bavail) h.some_block
      (omega arith),
)
