-- ===== src/Binance/Translation.antt =====
-- order_gateways/binance/order_translation.py: orders in the words of Binance. A function that raises
-- OrderError returns none.
use qf635project.Base.{Bool, true, false, Option, none, some}
use qf635project.Core.{
  OrderType, market, limit, stop, stop_limit, post_only, TimeInForce, gtc, ioc, fok, day, gtd, gtx,
}

-- The order types of Binance that the translation uses.
pub data BinanceType : Type 0 where
  market_order : BinanceType
  limit_order : BinanceType
  limit_maker : BinanceType
  stop_loss : BinanceType
  stop_loss_limit : BinanceType

unfoldable pub order_type_to_binance : OrderType → TimeInForce → Bool → BinanceType × TimeInForce
order_type_to_binance market tif futures = (market_order, tif)
order_type_to_binance limit tif futures = (limit_order, tif)
order_type_to_binance ioc tif futures = (limit_order, ioc)
order_type_to_binance fok tif futures = (limit_order, fok)
order_type_to_binance post_only tif true = (limit_order, gtx)
order_type_to_binance post_only tif false = (limit_maker, tif)
order_type_to_binance stop tif futures = (stop_loss, tif)
order_type_to_binance stop_limit tif futures = (stop_loss_limit, tif)

-- `tif_to_binance`: the texts that are sent are those of these four.
abbrev pub tif_to_binance : TimeInForce → Option TimeInForce
tif_to_binance gtc = some gtc
tif_to_binance ioc = some ioc
tif_to_binance fok = some fok
tif_to_binance gtx = some gtx
tif_to_binance day = none
tif_to_binance gtd = none
