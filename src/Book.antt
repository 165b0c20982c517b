-- ===== src/Book.antt =====
-- include/optitrade/book: the order books.
pub mod Ladder
pub mod OrderBook
pub mod MarketBooks
mod Tests
