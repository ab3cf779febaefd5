-- ===== src/Http/Body/Chunked.antt =====
-- A chunked body that waits whole (`onion_http_parse_body` of src/onion/request.c).
use checks.Prelude.{List, [], ◌∷◌}
use checks.Http.Allocator.{Allocator}
use checks.Http.Buffer.{Buffer}
use checks.Http.Request.{Request}
use checks.Http.Body.Chunks.{Chunk, counted, moved}

-- The buffer behind all the chunks.
abbrev pub moved_all : Request → Buffer → List Chunk → Buffer
moved_all r b [] = b
moved_all r b (c ∷ cs) = moved_all (counted r c) (moved r b c) cs
