-- ===== src/Search/Refused.antt =====
-- `Parse` of pkg/search/parser.go on a text that begins with a minus, as `Query` of
-- internal/domain/search_query.go writes it.
use code_scout.Common.{Bytes, codes}
use code_scout.Search.Filter.{SearchFilter, no_filter}
use code_scout.Search.Lexer.{ParseError}

abbrev pub refusal : ParseError
refusal = record { position = 0; message = codes "only tags can be negated: -tag:noise" }

-- The filter that asks for a text and nothing else.
abbrev pub only_text : Bytes → SearchFilter
only_text t = record no_filter { text_query = t }
