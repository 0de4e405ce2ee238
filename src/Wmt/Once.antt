-- ===== src/Wmt/Once.antt =====
-- The order and the number of the ioctls that carry patches.
use mobile_config.Base.{
  ℕ, suc, ◌+◌, ◌≡◌, refl, inl, inr, Bool, true, false, not, ◌&&◌, List, [], ◌∷◌, if◌then◌else◌,
  Option, none, some, arith, length, pos, Bool-cases, Option-cases, ltb_ℤ,
}
use mobile_config.Libc.{Bytes, codes, streq}
use mobile_config.Wmt.Firmware.{Store, Header, collect, read_patch_header, max_patch_num}
use mobile_config.Wmt.Patches.{
  Call, set_patch_num, set_patch_info, set_rom_patch_info, Kernel, Loader, ioctl, rom_loop,
  rom_names, handle_rom_patch, patch_loop, announce, patch_names, handle_patch, handle_command,
}

-- The accepted announcements among the calls: those that the kernel answered with 0 or more.
abbrev is_announcement : Call → Bool
is_announcement (set_patch_num n) = true
is_announcement _ = false

abbrev pub accepted : Kernel → List Call → ℕ
accepted k [] = 0
accepted k (c ∷ older) =
    if is_announcement c && not (ltb_ℤ (k older c) (pos 0))
    then suc (accepted k older)
    else accepted k older

-- At most one announcement was accepted, and one exactly when the loader remembers it.
abbrev pub ToldOnce : Kernel → Loader → Type 0
ToldOnce k s = accepted k s.calls ≡ (if s.announced then 1 else 0)

rom_loop-ToldOnce :
    (st : Store) (k : Kernel) (names : List Bytes) (s : Loader)
    → ToldOnce k s
    → ToldOnce k (rom_loop st k names s).0
unfolding rom_loop ioctl
rom_loop-ToldOnce st k [] s t = t
rom_loop-ToldOnce st k (n ∷ ns) s t = elim (Option-cases (read_patch_header st n)) [
  | inl e ↦ rw (e, rom_loop) t
  | inr (h, e) ↦
      rw (e, rom_loop)
        (ground
          (arith, rom_loop-ToldOnce st k ns (ioctl k (set_rom_patch_info h.type h.address n) s).0))
]

patch_loop-ToldOnce :
    (st : Store) (k : Kernel) (seq : ℕ) (names : List Bytes) (s : Loader)
    → ToldOnce k s
    → ToldOnce k (patch_loop st k seq names s).0
unfolding patch_loop ioctl
patch_loop-ToldOnce st k seq [] s t = t
patch_loop-ToldOnce st k seq (n ∷ ns) s t = elim (Option-cases (read_patch_header st n)) [
  | inl e ↦ rw (e, patch_loop) t
  | inr (h, e) ↦
      rw (e, patch_loop)
        (ground (
          arith,
          patch_loop-ToldOnce st k (seq + 1) ns (ioctl k (set_patch_info seq h.address n) s).0,
        ))
]

announce-ToldOnce :
    (k : Kernel) (count : ℕ) (s : Loader) → ToldOnce k s → ToldOnce k (announce k count s).0
unfolding announce ioctl
announce-ToldOnce k count s t = ground arith

rom_names-ToldOnce :
    (st : Store) (k : Kernel) (names : Option (List Bytes)) (s : Loader)
    → ToldOnce k s
    → ToldOnce k (rom_names st k names s).0
unfolding rom_names
rom_names-ToldOnce st k none s t = t
rom_names-ToldOnce st k (some []) s t = t
rom_names-ToldOnce st k (some (n ∷ ns)) s t = rom_loop-ToldOnce st k (n ∷ ns) s t

patch_names-ToldOnce :
    (st : Store) (k : Kernel) (names : Option (List Bytes)) (s : Loader)
    → ToldOnce k s
    → ToldOnce k (patch_names st k names s).0
unfolding patch_names
patch_names-ToldOnce st k none s t = t
patch_names-ToldOnce st k (some []) s t = t
patch_names-ToldOnce st k (some (n ∷ ns)) s t =
    let told = announce-ToldOnce k (length (n ∷ ns)) s t in
    ground
      (arith, told, patch_loop-ToldOnce st k 1 (n ∷ ns) (announce k (length (n ∷ ns)) s).0 told)

pub handle_command-ToldOnce :
    (st : Store) (k : Kernel) (cmd : Bytes) (s : Loader)
    → ToldOnce k s
    → ToldOnce k (handle_command st k cmd s).0
unfolding handle_command handle_rom_patch handle_patch
handle_command-ToldOnce st k cmd s t =
    let rom = rom_names-ToldOnce st k (collect st (codes "_ram_") max_patch_num) s t in
    let patch = patch_names-ToldOnce st k (collect st (codes "_patch_") max_patch_num) s t in
    elim (Bool-cases (streq cmd (codes "srh_rom_patch"))) [
      | inl e ↦ rw (e, handle_command) rom
      | inr e ↦ elim (Bool-cases (streq cmd (codes "srh_patch"))) [
        | inl f ↦ rw (e, handle_command) (rw f patch)
        | inr f ↦ rw (e, handle_command) (rw f (ground arith))
      ]
    ]

-- The loader after a sequence of commands. Between two of them the files may change.
abbrev pub commands : Kernel → List (Store × Bytes) → Loader → Loader
commands k [] s = s
commands k ((st, cmd) ∷ rest) s = commands k rest (handle_command st k cmd s).0

-- If the kernel has accepted the number of patches once where the loader remembers it, and never
-- where it does not, then this holds after any sequence of commands, with files that may change
-- between them and whatever the kernel answers: the number is accepted at most once.
pub commands-ToldOnce :
    (k : Kernel) (cmds : List (Store × Bytes)) (s : Loader)
    → ToldOnce k s
    → ToldOnce k (commands k cmds s)
commands-ToldOnce k [] s t = t
commands-ToldOnce k ((st, cmd) ∷ rest) s t =
    commands-ToldOnce k rest (handle_command st k cmd s).0 (handle_command-ToldOnce st k cmd s t)

-- The address of a patch, none of which is read from a file that is short.
abbrev pub address_of : Option Header → Bytes
address_of none = []
address_of (some h) = h.address

-- The calls that tell of the patches from `seq` on, added to those that were there.
abbrev pub told : Store → ℕ → List Bytes → List Call → List Call
told st seq [] calls = calls
told st seq (n ∷ ns) calls =
    told st (seq + 1) ns (set_patch_info seq (address_of (read_patch_header st n)) n ∷ calls)

-- One round of the loop, for the header that is read.
patch_step :
    (st : Store) (k : Kernel) (seq : ℕ) (n : Bytes) (ns : List Bytes) (s : Loader)
    (r : Option Header)
    → read_patch_header st n ≡ r
    → ((s' : Loader)
        → (patch_loop st k (seq + 1) ns s').1 ≡ true
        → (patch_loop st k (seq + 1) ns s').0.calls ≡ told st (seq + 1) ns s'.calls)
    → (patch_loop st k seq (n ∷ ns) s).1 ≡ true
    → (patch_loop st k seq (n ∷ ns) s).0.calls ≡ told st seq (n ∷ ns) s.calls
unfolding patch_loop ioctl
patch_step st k seq n ns s none e ih h = ground arith
patch_step st k seq n ns s (some x) e ih h =
    ground (arith, ih (ioctl k (set_patch_info seq x.address n) s).0)

patch_loop-told :
    (st : Store) (k : Kernel) (seq : ℕ) (names : List Bytes) (s : Loader)
    → (patch_loop st k seq names s).1 ≡ true
    → (patch_loop st k seq names s).0.calls ≡ told st seq names s.calls
unfolding patch_loop ioctl
patch_loop-told st k seq [] s h = refl
patch_loop-told st k seq (n ∷ ns) s h =
    patch_step st k seq n ns s (read_patch_header st n) refl (patch_loop-told st k (seq + 1) ns) h

patch_names-told :
    (st : Store) (k : Kernel) (names : List Bytes) (s : Loader)
    → s.announced ≡ true
    → (patch_names st k (some names) s).1 ≡ true
    → (patch_names st k (some names) s).0.calls ≡ told st 1 names s.calls
unfolding patch_names announce
patch_names-told st k [] s a h = refl
patch_names-told st k (n ∷ ns) s a h = ground (arith, patch_loop-told st k 1 (n ∷ ns) s)

-- After a search for patches that succeeds with the count already told, the new calls are one for
-- each collected name, in their sorted order, numbered from 1, each with the address that its file
-- holds, and nothing else.
pub handle_patch_order :
    (st : Store) (k : Kernel) (s : Loader) {names : List Bytes}
    → s.announced ≡ true
    → collect st (codes "_patch_") max_patch_num ≡ some names
    → (handle_patch st k s).1 ≡ true
    → (handle_patch st k s).0.calls ≡ told st 1 names s.calls
unfolding handle_patch
handle_patch_order st k s {names} a c h = rw c (patch_names-told st k names s a (rw c at h))
