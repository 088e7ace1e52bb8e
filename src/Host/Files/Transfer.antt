-- ===== src/Host/Files/Transfer.antt =====
-- What a channel leaves on the desk and answers, over any messages and any luck with the disk.
use network_computer.Prelude.{
  ℕ, suc, ◌+◌, ◌≤◌, ◌≡◌, refl, ap, ◌&&◌, List, [], ◌∷◌, ◌++◌, ◌⊎◌, Option, none, some, arith,
  length, length-append, ◌==◌, Option-cases, Bool-cases, inl, inr,
}
use network_computer.Prelude.Bytes.{Bytes, bytes_eq_iff}
use network_computer.Host.Files.{
  Header, Incoming, Channel, Message, piece, end, header, Disk, remove_temp, finish, on_header,
  on_piece, on_end, on_message, receive, on_close,
}

-- The temporary files on disk are that of the file being received, and no other.
abbrev pub temps_of : Option Incoming → List Bytes
temps_of none = []
temps_of (some i) = i.tmp ∷ []

-- What has come is in the temporary file, and is not more than was announced.
abbrev pub Within : Option Incoming → Type 0
Within none = Unit {0}
Within (some i) = (i.got ≡ length i.written) × (i.got ≤ i.hdr.size)

pub record IsSound (c : Channel) : Type 0 where
  pub temps : c.temps ≡ temps_of c.f
  pub within : Within c.f

remove_temp_self : (t : Bytes) → remove_temp t (t ∷ []) ≡ []
unfolding remove_temp
remove_temp_self t = ground (arith, bytes_eq_iff t t)

finish_replies : (r : Bytes) (c : Channel) → (finish r c).replies ≡ c.replies ++ r ∷ []
unfolding finish
finish_replies r c = ground arith

finish-idle :
    (r : Bytes) (c : Channel)
    → c.temps ≡ temps_of c.f
    → ((finish r c).f ≡ none)
      × ((finish r c).temps ≡ [])
      × ((finish r c).replies ≡ c.replies ++ r ∷ [])
      × ((finish r c).disk ≡ c.disk)
unfolding finish
finish-idle r c h = elim (Option-cases c.f) [
  | inl e ↦ rw (e, finish) (e, ground arith, refl, refl)
  | inr (i, e) ↦ rw (e, finish) (refl, ground (arith, remove_temp_self i.tmp), refl, refl)
]

idle-IsSound : (c : Channel) → c.f ≡ none → c.temps ≡ [] → IsSound c
idle-IsSound c e t = record { temps = ground arith; within = ground arith }

finish-IsSound : (r : Bytes) (c : Channel) → c.temps ≡ temps_of c.f → IsSound (finish r c)
finish-IsSound r c h =
    let (idle, clean, _, _) = finish-idle r c h in idle-IsSound (finish r c) idle clean

-- Every file in place that was not there before is one of the size that its header announced.
abbrev pub Announced : Channel → Channel → Type 0
Announced c c' =
    (c'.disk ≡ c.disk)
    ⊎ ((i : Incoming) × (final : Bytes) × (c.f ≡ some i)
        × (c'.disk ≡ (final, i.written) ∷ c.disk)
        × (length i.written ≡ i.hdr.size))

on_header-IsSound :
    (d : Disk) (o : Option Header) (c : Channel)
    → c.f ≡ none
    → IsSound c
    → IsSound (on_header d o c) × ((on_header d o c).disk ≡ c.disk)
unfolding on_header
on_header-IsSound d none c e s = ground arith
on_header-IsSound d (some hdr) c e s = ground arith

on_piece-IsSound :
    (d : Disk) (bytes : Bytes) (i : Incoming) (c : Channel)
    → c.f ≡ some i
    → IsSound c
    → IsSound (on_piece d bytes i c) × ((on_piece d bytes i c).disk ≡ c.disk)
unfolding on_piece
on_piece-IsSound d bytes i c e s =
    ground (arith, remove_temp_self i.tmp, length-append i.written bytes)

on_end-IsSound :
    (d : Disk) (i : Incoming) (c : Channel)
    → c.f ≡ some i
    → IsSound c
    → IsSound (on_end d i c) × ((on_end d i c).f ≡ none) × Announced c (on_end d i c)
unfolding on_end
on_end-IsSound d i c e s = elim (Bool-cases (i.got == i.hdr.size)) [
  | inl full ↦ elim (Bool-cases (d.close_ok && d.rename_ok)) [
    | inl moved ↦ (
      ground (arith, remove_temp_self i.tmp),
      ground arith,
      inr (i, d.unique i.final, e, ground arith, ground arith),
    )
    | inr stuck ↦ (ground (arith, remove_temp_self i.tmp), ground arith, inl (ground arith))
  ]
  | inr short ↦ (ground (arith, remove_temp_self i.tmp), ground arith, inl (ground arith))
]

pub receive_eq :
    (d : Disk) (m : Message) (c : Channel) {o : Option Incoming}
    → c.f ≡ o
    → receive d m c ≡ on_message d o m c
unfolding receive
receive_eq d m c e = ap (λ o. on_message d o m c) e

-- Nothing but the end of a file puts a file in place, and then it is the one being received, with
-- all that came and exactly as many bytes as its header announced; whatever the message and the
-- disk, no temporary file but that of a file still being received is left.
pub receive-IsSound :
    (d : Disk) (m : Message) (c : Channel)
    → IsSound c
    → IsSound (receive d m c) × Announced c (receive d m c)
unfolding on_message
receive-IsSound d m c s = elim (Option-cases c.f) [
  | inl e ↦ rw (receive_eq d m c e) (idle m e)
  | inr (i, e) ↦ rw (receive_eq d m c e) (busy m i e)
]
  where
    idle :
        (m : Message)
        → c.f ≡ none
        → IsSound (on_message d none m c) × Announced c (on_message d none m c)
    idle (piece bytes) e = (s, inl refl)
    idle end e = (s, inl refl)
    idle (header o) e = let (sound, same) = on_header-IsSound d o c e s in (sound, inl same)

    busy :
        (m : Message) (i : Incoming)
        → c.f ≡ some i
        → IsSound (on_message d (some i) m c) × Announced c (on_message d (some i) m c)
    busy (piece bytes) i e =
        let (sound, same) = on_piece-IsSound d bytes i c e s in (sound, inl same)
    busy end i e = let (sound, _, announced) = on_end-IsSound d i c e s in (sound, announced)
    busy (header o) i e = (s, inl refl)

unfoldable pub receive_all : List (Disk × Message) → Channel → Channel
receive_all [] c = c
receive_all ((d, m) ∷ ms) c = receive_all ms (receive d m c)

receive_all-IsSound :
    (ms : List (Disk × Message)) (c : Channel) → IsSound c → IsSound (receive_all ms c)
unfolding receive_all
receive_all-IsSound [] c s = s
receive_all-IsSound ((d, m) ∷ ms) c s =
    receive_all-IsSound ms (receive d m c) (receive-IsSound d m c s).0

-- Whatever was sent, and wherever the client broke off, a channel that has closed has no temporary
-- file left on the desk, and has kept every file that was in place.
pub close_leaves_no_temp :
    (ms : List (Disk × Message)) (c : Channel)
    → IsSound c
    → ((on_close (receive_all ms c)).temps ≡ [])
      × ((on_close (receive_all ms c)).disk ≡ (receive_all ms c).disk)
unfolding on_close
close_leaves_no_temp ms c s =
    let t = (receive_all-IsSound ms c s).temps in
    elim (Option-cases (receive_all ms c).f) [
      | inl e ↦ rw (e, on_close) (ground arith, refl)
      | inr (i, e) ↦ rw (e, on_close) (ground (arith, remove_temp_self i.tmp), refl)
    ]

-- One for a file that is being received, whose answer is still to come.
abbrev pub owed : Option Incoming → ℕ
owed none = 0
owed (some _) = 1

-- The answers given, with the one still owed.
abbrev pub answers : Channel → ℕ
answers c = length c.replies + owed c.f

length-snoc : (rs : List Bytes) (r : Bytes) → length (rs ++ r ∷ []) ≡ suc (length rs)
length-snoc rs r = omega (arith, length-append rs (r ∷ []))

pub header-answers :
    (d : Disk) (o : Option Header) (c : Channel)
    → c.f ≡ none
    → answers (on_header d o c) ≡ suc (length c.replies)
unfolding on_header
header-answers d none c e = grind (arith, length-snoc)
header-answers d (some hdr) c e = grind (arith, length-snoc)

pub piece-answers :
    (d : Disk) (bytes : Bytes) (c : Channel) → answers (receive d (piece bytes) c) ≡ answers c
unfolding on_message on_piece
piece-answers d bytes c = elim (Option-cases c.f) [
  | inl e ↦ rw (receive_eq d (piece bytes) c e) refl
  | inr (i, e) ↦ rw (receive_eq d (piece bytes) c e) (grind (arith, length-snoc))
]

pub end-answers :
    (d : Disk) (c : Channel)
    → (length (receive d end c).replies ≡ answers c) × ((receive d end c).f ≡ none)
unfolding on_message on_end
end-answers d c = elim (Option-cases c.f) [
  | inl e ↦ rw (receive_eq d end c e) (ground arith)
  | inr (i, e) ↦ rw (receive_eq d end c e) (grind (arith, length-snoc))
]
