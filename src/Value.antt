-- ===== src/Value.antt =====
-- Values of the JSON documents that the program passes around: what `json.loads` returns, but
-- that a number with a fraction has no counterpart. A dictionary keeps its insertion order.
mod Data
mod Laws
unfoldable pub use Data.*
pub use Laws.*
