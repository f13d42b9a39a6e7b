-- ===== src/Tests/Codec.antt =====
-- The byte-order helpers and the texts at concrete numbers.
use ytorrent.Base.{ℕ, ◌/◌, ◌%◌, ◌^◌, ◌<◌, List, All, ◌≡◌, [], ◌∷◌, ◌++◌, done, arith}
use ytorrent.Utils.Transcoder.{
  read_as_be32, write_as_be32, read_as_be16, write_as_be16, read_as_be64, write_as_be64,
  read_as_le64, write_as_le64,
}
use ytorrent.Utils.Transcoder.RoundTrip.{
  read_as_be32-write_as_be32, read_as_be16-write_as_be16, read_as_be64-write_as_be64,
  read_as_le64-write_as_le64,
}
use ytorrent.Utils.Text.{parse_ip, url_encode}
use ytorrent.Utils.Text.Urls.{
  url_decode, IsQuerySafe, url_decode-url_encode, url_encode-IsQuerySafe,
}
use ytorrent.Utils.Text.Address.{read_dotted, read_dotted-parse_ip}

read_as_be32-write_as_be32_example :
    read_as_be32 (write_as_be32 0xDEADBEEF ++ 7 ∷ []) ≡ done 0xDEADBEEF
read_as_be32-write_as_be32_example = read_as_be32-write_as_be32 0xDEADBEEF (7 ∷ []) (omega arith)

-- 258 is 0x0102: only its low byte comes back.
read_as_be16-write_as_be16_example : read_as_be16 (write_as_be16 258 ++ []) ≡ done 2
read_as_be16-write_as_be16_example = read_as_be16-write_as_be16 258 []

read_as_be64-write_as_be64_example :
    read_as_be64 (write_as_be64 0x0123456789ABCDEF ++ []) ≡ done 0x0123456789ABCDEF
read_as_be64-write_as_be64_example = read_as_be64-write_as_be64 0x0123456789ABCDEF [] (omega arith)

read_as_le64-write_as_le64_example :
    read_as_le64 (write_as_le64 0x0123456789ABCDEF ++ []) ≡ done 0x0123456789ABCDEF
read_as_le64-write_as_le64_example = read_as_le64-write_as_le64 0x0123456789ABCDEF [] (omega arith)

abbrev greeting : List ℕ
greeting = b'a' ∷ b' ' ∷ b'/' ∷ 200 ∷ []

greeting_bytes : All (λ c. c < 256) greeting
greeting_bytes = (omega arith, (omega arith, (omega arith, (omega arith, tt))))

url_decode-url_encode_example : url_decode (url_encode greeting) ≡ greeting
url_decode-url_encode_example = url_decode-url_encode greeting greeting_bytes

url_encode-IsQuerySafe_example : All IsQuerySafe (url_encode greeting)
url_encode-IsQuerySafe_example = url_encode-IsQuerySafe greeting greeting_bytes

-- 127.0.0.1 in network order, as a little-endian machine reads it.
read_dotted-parse_ip_example :
    read_dotted 0 (parse_ip 0x0100007F)
    ≡ 0x0100007F % 2 ^ 8
      ∷ 0x0100007F / 2 ^ 8 % 2 ^ 8
      ∷ 0x0100007F / 2 ^ 16 % 2 ^ 8
      ∷ 0x0100007F / 2 ^ 24 % 2 ^ 8
      ∷ []
read_dotted-parse_ip_example = read_dotted-parse_ip 0x0100007F
