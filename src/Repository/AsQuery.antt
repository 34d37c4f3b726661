-- ===== src/Repository/AsQuery.antt =====
-- pkg/repository/repository.go without a storage, as the query of evaluation/evaluator.go: the evaluator
-- reads flags and segments by the methods GetFlag and GetSegment.
use ff_golang_server_sdk.Common.{String, ◌≡◌, ap, true, Option, List}
use ff_golang_server_sdk.Common.Run.{ret}
use ff_golang_server_sdk.Evaluator.{Query}
use ff_golang_server_sdk.Repository.{
  Cache, Storage, Call, flags, segments, get_flag, get_segment, format_flag_key, format_segment_key,
}
use ff_golang_server_sdk.Repository.View.{
  CacheLaws, IsTyped, view, cached, answer, get_and_cache-view, view-get,
}

module _ (c : Cache) (s : Storage) (laws : CacheLaws c) where
  -- The answers of a state of the cache.
  abbrev pub query_of : c.State → Query
  query_of st = record {
    get_segment = λ id. answer c s laws segments id (view c s laws segments st id);
    get_flag = λ id. answer c s laws flags id (view c s laws flags st id);
  }

  -- Behind a read the answers are those from before.
  abbrev pub AnswersAlike : c.State → c.State → Type 0
  AnswersAlike st st' =
      ((j : String) → (query_of st').get_flag j ≡ (query_of st).get_flag j)
      × ((j : String) → (query_of st').get_segment j ≡ (query_of st).get_segment j)

  get-AnswersAlike : (st : c.State) (k : String) → AnswersAlike st (c.get st k).1
  get-AnswersAlike st k = (
    λ j. ap (answer c s laws flags j) (view-get c s laws flags st k j),
    λ j. ap (answer c s laws segments j) (view-get c s laws segments st k j),
  )

  -- In a repository without a storage, whose cache holds only flags under the keys of flags and only
  -- segments under those of segments: `GetFlag` and `GetSegment` give the answers of one query, which then
  -- depends on the state of the cache alone, and leave a state whose query answers alike. So the reads of
  -- an evaluation do not disturb one another.
  pub get_flag-query_of :
      (st : c.State) (calls : Option (List Call)) (id : String)
      → IsTyped c s laws flags st
      → IsTyped c s laws segments st
      → ((st' : c.State) × (get_flag c s id (cached c s laws st calls)
            ≡ ret ((query_of st).get_flag id, cached c s laws st' calls))
          × AnswersAlike st st')
        × ((st' : c.State) × (get_segment c s id (cached c s laws st calls)
              ≡ ret ((query_of st).get_segment id, cached c s laws st' calls))
            × AnswersAlike st st')
  unfolding get_flag get_segment
  get_flag-query_of st calls id typed other_typed = (
    (
      (c.get st (format_flag_key id)).1,
      get_and_cache-view c s laws flags st calls id true typed,
      get-AnswersAlike st (format_flag_key id),
    ),
    (
      (c.get st (format_segment_key id)).1,
      get_and_cache-view c s laws segments st calls id true other_typed,
      get-AnswersAlike st (format_segment_key id),
    ),
  )
