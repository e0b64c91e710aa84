-- ===== src/SendFile/Wire.antt =====
-- A file on the wire, as a client takes it apart.
use pick_up_the_light_server.Prelude.{
  ℕ, ◌+◌, ◌≤◌, ◌<◌, ◌^◌, ◌≡◌, refl, sym, ap, subst, ◌∙◌, some, [], ◌∷◌, ◌++◌, arith, take, drop,
  length, append-nil, length-append, length-drop, take-length, take-append_length,
  drop-append_length, drop_all,
}
use pick_up_the_light_server.Outcome.{ok}
use pick_up_the_light_server.Text.{Bytes, c_string}
use pick_up_the_light_server.Protocol.{
  header_bytes, header_size, to_header, get_file, purpose_code, buf_size, file_buf_size,
}
use pick_up_the_light_server.Protocol.Layout.{to_header-header_bytes, purpose_code-lt}
use pick_up_the_light_server.Platform.{Platform}
use pick_up_the_light_server.SendFile.{front_of, file_header, file_packet}

-- A text without a zero byte is what is read back from a buffer that it was copied into.
c_string-copied :
    (text rest : Bytes) → c_string text ≡ text → c_string ((text ++ 0 ∷ []) ++ rest) ≡ text
unfolding c_string
c_string-copied [] rest h = refl
c_string-copied (x ∷ xs) rest h = ground (arith, h, c_string-copied xs rest)

length-front_of :
    (bs fresh : Bytes) → length bs ≤ length fresh → length (front_of bs fresh) ≡ length fresh
length-front_of bs fresh h =
    omega (arith, length-append bs (drop (length bs) fresh), length-drop (length bs) fresh)

take_part : (n : ℕ) (a b : Bytes) → length a ≡ n → take n (a ++ b) ≡ a
take_part n a b e = ap (λ k. take k (a ++ b)) (sym e) ∙ take-append_length a b

drop_part : (n : ℕ) (a b : Bytes) → length a ≡ n → drop n (a ++ b) ≡ b
drop_part n a b e = ap (λ k. drop k (a ++ b)) (sym e) ∙ drop-append_length a b

-- The file is there whole, and fills its part of the packet.
content_whole :
    (content fresh : Bytes) (size : ℕ)
    → length content ≡ size
    → length fresh ≡ size
    → front_of (take size content) fresh ≡ content
content_whole content fresh size e f =
    let whole : take size content ≡ content =
      ap (λ k. take k content) (sym e) ∙ take-length content in
    ap (λ c. front_of c fresh) whole
    ∙ ap (λ r. content ++ r) (drop_all (length content) fresh (omega (arith, e, f)))
    ∙ append-nil content

module _ (P : Platform) where
  -- What a client makes of the stream: the header, the text at the front of the description, and the
  -- content that follows the description's buffer.
  pub record Downloads (stream info content : Bytes) (size : ℕ) : Type 0 where
    pub header :
        to_header stream ≡ some (record { purpose = purpose_code get_file; data_size = size })
    pub description : c_string (take buf_size (drop header_size stream)) ≡ info
    pub file : drop buf_size (drop header_size stream) ≡ content

  abbrev described : Bytes → Bytes
  described info = front_of (info ++ 0 ∷ []) (P.garbage buf_size)

  packet_fits :
      (size : ℕ) (info content stream : Bytes)
      → file_packet P size info content ≡ ok stream
      → (length info + 1 ≤ buf_size)
        × (size ≤ file_buf_size)
        × (file_header P size ++ described info ++ front_of (take size content) (P.garbage size)
            ≡ stream)
  unfolding file_packet
  packet_fits size info content stream h = (ground (arith, h), ground (arith, h), ground (arith, h))

  file_header-dropped :
      (size : ℕ) (rest : Bytes) → drop header_size (file_header P size ++ rest) ≡ rest
  unfolding file_header header_bytes
  file_header-dropped size rest = refl

  file_header-read :
      (size : ℕ) (rest : Bytes)
      → size < 2 ^ 32
      → to_header (file_header P size ++ rest)
        ≡ some (record { purpose = purpose_code get_file; data_size = size })
  unfolding file_header
  file_header-read size rest small =
      to_header-header_bytes (record { purpose = purpose_code get_file; data_size = size }) rest
        (purpose_code-lt get_file) small

  laid_out :
      (size : ℕ) (info content rest : Bytes)
      → length (P.garbage buf_size) ≡ buf_size
      → length info + 1 ≤ buf_size
      → size < 2 ^ 32
      → c_string info ≡ info
      → rest ≡ content
      → Downloads (file_header P size ++ described info ++ rest) info content size
  unfolding file_header
  laid_out size info content rest fresh fits small text whole =
      let filled : length (described info) ≡ buf_size =
        length-front_of (info ++ 0 ∷ []) (P.garbage buf_size)
          (omega (arith, fits, fresh, length-append info (0 ∷ [])))
        ∙ fresh in
      let behind = file_header-dropped size (described info ++ rest) in
      record {
        header = file_header-read size (described info ++ rest) small;
        description =
            ap (λ l. c_string (take buf_size l)) behind
            ∙ ap c_string (take_part buf_size (described info) rest filled)
            ∙ c_string-copied info (drop (length (info ++ 0 ∷ [])) (P.garbage buf_size)) text;
        file = ap (drop buf_size) behind ∙ drop_part buf_size (described info) rest filled ∙ whole;
      }

  -- The packet of a file is made where the description and a zero fit their buffer and the file
  -- has 1 GiB at most, and a client reads the description and the content of the file from it,
  -- whatever the rest of the buffer held: the fresh memory that is sent along does not matter.
  pub file_packet-Downloads :
      (size : ℕ) (info content stream : Bytes)
      → length (P.garbage buf_size) ≡ buf_size
      → length (P.garbage size) ≡ size
      → length content ≡ size
      → c_string info ≡ info
      → file_packet P size info content ≡ ok stream
      → Downloads stream info content size
  file_packet-Downloads size info content stream fresh_info fresh_file whole text h =
      let (fits, small, e) = packet_fits size info content stream h in
      subst (λ l. Downloads l info content size) e
        (laid_out size info content (front_of (take size content) (P.garbage size)) fresh_info fits
          (omega (arith, small)) text
          (content_whole content (P.garbage size) size whole fresh_file))
