-- ===== src/Tests/Scanning.antt =====
-- A small disk, a download in two pieces, and two subscriptions.
use onesync.Prelude.{
  ℕ, ◌+◌, ◌≤◌, ◌≡◌, refl, sym, ◌⊎◌, inl, inr, Bool, true, none, some, List, [], ◌∷◌, ◌++◌, map,
  arith,
}
use mathlib.Core.List.{append-nil, append_assoc}
use onesync.Prelude.Tests.{if◌then◌else◌, Bool-cases}
use onesync.Prelude.Equality.{◌==◌, nat_eq, list_eq}
use onesync.Prelude.Lists.{All}
use onesync.Prelude.Text.{Text, codes}
use onesync.Prelude.Outcome.{ok, Action}
use onesync.Protocol.Remote.{FileHashes}
use onesync.Graph.Http.{Response, check_status}
use onesync.Graph.Download.{Sha1, verify, feed, started, ended, download_from_url}
use onesync.Graph.Download.Streaming.{arrived, joined, IsIncremental, download_from_url-joined}
use onesync.FsLocal.Scan.{
  FileType, file_type, dir_type, symlink_type, DirEntry, done, classify_skip, scan_with_skips,
}
use onesync.FsLocal.Scan.Complete.{
  children, total, ReadableDir, IsTree, listed_in, links_in, Among, Closed, Reached,
  scan_with_skips-Complete,
}
use onesync.Daemon.Subscriptions.{Event, subscribed, cancelled, sent}
use onesync.Tests.Adapter.{Log, server, answer}

abbrev entry : Text → Text → FileType → Text ⊎ DirEntry
entry path name t = inr (record {
  path = path;
  file_name = name;
  metadata = inr (record { file_type = t; len = 3; modified = inr 5 });
})

abbrev top : Text
top = codes "/a"

abbrev below : Text
below = codes "/a/b"

abbrev top_entries : List (Text ⊎ DirEntry)
top_entries =
    entry (codes "/a/x") (codes "x") file_type
    ∷ (entry below (codes "b") dir_type
        ∷ (entry (codes "/a/._x") (codes "._x") file_type
            ∷ (entry (codes "/a/l") (codes "l") symlink_type ∷ [])))

abbrev disk : Text → Text ⊎ List (Text ⊎ DirEntry)
disk dir =
    if dir == top
    then inr top_entries
    else if dir == below
    then inr (entry (codes "/a/b/y") (codes "y") file_type ∷ [])
    else inr []

abbrev printable : Text → Bool
printable name = true

abbrev weight : Text → ℕ
weight dir = if dir == top then 2 else 1

readable_lem : (dir : Text) → ReadableDir printable disk (disk dir)
readable_lem dir = elim (Bool-cases (dir == top)) [
  | inl at_top ↦ rw at_top (tt, (tt, (tt, (tt, tt))))
  | inr elsewhere ↦ elim (Bool-cases (dir == below)) [
    | inl at_below ↦ rw (elsewhere, at_below) (tt, tt)
    | inr other ↦ rw (elsewhere, other) tt
  ]
]

finite_lem :
    (dir : Text) → total printable disk weight (children printable disk dir).dirs + 1 ≤ weight dir
unfolding classify_skip
finite_lem dir = elim (Bool-cases (dir == top)) [
  | inl at_top ↦ rw at_top (omega arith)
  | inr elsewhere ↦ elim (Bool-cases (dir == below)) [
    | inl at_below ↦ rw (elsewhere, at_below) (omega arith)
    | inr other ↦ rw (elsewhere, other) (omega arith)
  ]
]

disk-IsTree : IsTree printable disk weight
disk-IsTree = record { readable = readable_lem; finite = finite_lem }

scan_with_skips-Complete_example :
    (vs : List Text) × (scan_with_skips printable disk 2 top
      ≡ done (listed_in printable disk vs, links_in printable disk vs))
    × Among printable disk top vs
    × Closed printable disk vs vs
    × All (Reached printable disk top) vs
scan_with_skips-Complete_example =
    scan_with_skips-Complete printable disk weight disk-IsTree 2 top (omega arith) (omega arith)

-- A hasher that keeps what it is given.
abbrev keeping : Sha1
keeping = record {
  State = List ℕ;
  new = [];
  update = λ block kept. kept ++ block;
  finalize = λ kept. kept;
}

keeping-IsIncremental : IsIncremental keeping
keeping-IsIncremental = record {
  update-append = λ a b s. sym (append_assoc s a b);
  update-nil = append-nil;
}

passes : check_status server (answer 200) [] ≡ inr (answer 200)
unfolding check_status
passes = refl

abbrev pieces : List (List ℕ)
pieces = (1 ∷ (2 ∷ [])) ∷ ((3 ∷ []) ∷ [])

abbrev sending : Text → Text → Text → Action Text Log (Response × List (Text ⊎ List ℕ))
sending url token id log = ok (answer 200, map arrived pieces) log

abbrev expected : FileHashes
expected = record { sha1_hash = some (codes "010203"); quick_xor_hash = none }

download_from_url-joined_example :
    download_from_url keeping
      (λ bytes. bytes)
      server
      sending
      (codes "t")
      (codes "u")
      (some expected)
      []
    ≡ ended keeping
        (λ bytes. bytes)
        server
        sending
        (verify keeping
          (λ bytes. bytes)
          (some expected)
          (feed keeping (λ bytes. bytes) (joined pieces) (started keeping (λ bytes. bytes))))
        []
download_from_url-joined_example =
    download_from_url-joined keeping (λ bytes. bytes) keeping-IsIncremental server sending
      (codes "t") (codes "u") (some expected) [] [] pieces (answer 200) (answer 200) refl passes

abbrev events : List Event
events =
    subscribed (codes "s1")
    ∷ (subscribed (codes "s2")
        ∷ (sent (codes "audit") ∷ (cancelled (codes "s2") ∷ (sent (codes "pair") ∷ []))))
