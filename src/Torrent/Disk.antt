-- ===== src/Torrent/Disk.antt =====
-- The calls of <cstdio> that src/torrent/torrent.cpp makes on the torrent's file.
use Prim.Native.Nat.{zero, suc}
use ytorrent.Base.{
  ℕ, ◌+◌, ◌-◌, ◌^◌, List, [], ◌∷◌, ◌++◌, Option, some, none, ltb, if◌then◌else◌, length, take, drop,
  min,
}
use ytorrent.Client.{Stream}

-- fseek(fp, offset, SEEK_SET), the offset as the bit pattern of a long. A negative one is refused.
unfoldable pub fseek : ℕ → Stream → Option Stream
fseek offset s = if ltb offset (2 ^ 63) then some (record s { position = offset }) else none

-- The first `n` bytes, with zeros where the file is shorter.
unfoldable pub take_padded : ℕ → List ℕ → List ℕ
take_padded zero xs = []
take_padded (suc n) [] = 0 ∷ take_padded n []
take_padded (suc n) (x ∷ xs) = x ∷ take_padded n xs

-- The file with `bytes` written from `position` on.
unfoldable pub overwrite : ℕ → List ℕ → List ℕ → List ℕ
overwrite position bytes old =
    take_padded position old ++ (bytes ++ drop (position + length bytes) old)

-- fwrite: the count of bytes that found room, and the file with those written.
unfoldable pub fwrite : List ℕ → Stream → ℕ × Stream
fwrite bytes s =
    let wrote = min (length bytes) (s.room - s.position) in
    (
      wrote,
      record s {
        contents = overwrite s.position (take wrote bytes) s.contents;
        position = s.position + wrote;
      },
    )

-- fread: the bytes up to the end of the file, `size` at most.
unfoldable pub fread : ℕ → Stream → List ℕ × Stream
fread size s =
    let bytes = take size (drop s.position s.contents) in
    (bytes, record s { position = s.position + length bytes })
