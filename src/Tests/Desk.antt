-- ===== src/Tests/Desk.antt =====
-- The host and its readers, at concrete inputs.
use network_computer.Prelude.{
  ℕ, ◌*◌, get_or, ◌≡◌, refl, Bool, true, false, List, [], ◌∷◌, none, some, arith, replicate,
}
use network_computer.Prelude.Assoc.{lookup, delete}
use network_computer.Prelude.Keys.{nat_eq}
use network_computer.Prelude.Bytes.{Bytes, codes, has_prefix}
use network_computer.Host.Hub
use network_computer.Host.Hub.{Running, new_hub, join, leave_locked, stop}
use network_computer.Host.Hub.Encoder.{Balanced, late_stop_starves}
use network_computer.Host.Hub.Gate.{received, from_keyframe, joined_from_keyframe}
use network_computer.Host.Files.{Header, Channel, end, Disk, receive, too_big}
use network_computer.Host.Files.Transfer.{IsSound, Announced, receive-IsSound}
use network_computer.Host.Files.Whole.{transfer, whole_file, Takes}
use network_computer.OggOpus.{new_reader, is_audio, total, duration}
use network_computer.OggOpus.Duration.{duration_rfc, rfc_count, rfc_frames}
use network_computer.OggOpus.Pages.{Page, stream, read_pages, packets_whole}

abbrev disk : Disk
disk = record {
  accepts = true;
  safe_name = λ n. n;
  free = some 60000000;
  unique = λ n. n;
  open_ok = true;
  write_ok = true;
  close_ok = true;
  rename_ok = true;
}

abbrev hdr : Header
hdr = record { name = codes "a.txt"; size = 3 }

abbrev idle : Channel
idle = record { f = none; temps = []; disk = []; replies = [] }

abbrev half : Channel
half = record {
  f = some (record {
    hdr = hdr;
    got = 1;
    final = codes "a.txt";
    tmp = codes ".a.txt.part";
    written = 65 ∷ [];
  });
  temps = codes ".a.txt.part" ∷ [];
  disk = [];
  replies = [];
}

half-IsSound : IsSound half
half-IsSound = record { temps = refl; within = (refl, omega arith) }

receive-IsSound_example : IsSound (receive disk end half) × Announced half (receive disk end half)
receive-IsSound_example = receive-IsSound disk end half half-IsSound

abbrev two_pieces : List (Disk × Bytes)
two_pieces = (disk, 65 ∷ 66 ∷ []) ∷ (disk, 67 ∷ []) ∷ []

disk-Takes : Takes disk hdr
unfolding too_big
disk-Takes = record { accepted = refl; named = λ e. absurd (cc e); fits = refl; opened = refl }

whole_file_example :
    ((transfer disk (some hdr) two_pieces disk idle).disk ≡ (codes "a.txt", codes "ABC") ∷ [])
    × ((transfer disk (some hdr) two_pieces disk idle).replies ≡ codes "ok a.txt" ∷ [])
whole_file_example =
    whole_file disk disk hdr two_pieces idle refl disk-Takes (refl, (refl, tt)) refl refl refl

-- One header packet and one packet of sound, on two pages.
abbrev pages : List Page
pages =
    record { header = replicate 22 0; segs = 8 ∷ []; body = codes "OpusHead" }
    ∷ record { header = replicate 22 0; segs = 2 ∷ []; body = 1 ∷ 2 ∷ [] }
    ∷ []

packets_whole_example :
    read_pages 2 (new_reader (stream pages))
    ≡ record { r = []; pending = []; queue = (1 ∷ 2 ∷ []) ∷ [] }
unfolding is_audio total has_prefix
packets_whole_example =
    packets_whole pages (codes "OpusHead" ∷ (1 ∷ 2 ∷ []) ∷ [])
      (
        record { header_length = refl; body_length = refl },
        (record { header_length = refl; body_length = refl }, tt),
      )
      refl refl

abbrev frames : List (Bool × ℕ)
frames = (false, 1) ∷ (true, 2) ∷ (false, 3) ∷ []

abbrev gated_hub : Hub.Hub ℕ
gated_hub = new_hub true

joined_from_keyframe_example : received 7 (join 7 1080 gated_hub) frames ≡ 2 ∷ 3 ∷ []
unfolding from_keyframe
joined_from_keyframe_example = joined_from_keyframe 7 1080 gated_hub frames

abbrev one_device : Hub.Hub ℕ
one_device = record {
  gated = true;
  subs = (7, false) ∷ [];
  encoder = some (record { id = 0; opts = 1080 });
  next_key = false;
  starts = 1;
}

abbrev late : Hub.Hub ℕ
late = stop (join 8 720 (leave_locked 7 one_device).0)

late_stop_starves_example :
    (late.encoder ≡ none) × (lookup 8 late.subs ≡ some true) × ¬ Balanced late
unfolding leave_locked delete
late_stop_starves_example =
    late_stop_starves one_device 7 8 720 (record { id = 0; opts = 1080 }) refl refl

duration_rfc_example : duration (255 ∷ 3 ∷ []) ≡ rfc_count 3 (3 ∷ []) * get_or rfc_frames 31 0
duration_rfc_example = duration_rfc 255 (3 ∷ []) (omega arith)
