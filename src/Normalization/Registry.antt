-- ===== src/Normalization/Registry.antt =====
-- `_CANONICAL_METRIC_REGISTRY`: the concepts of each metric, the first ones before the others.
use arche_api.Base.{List, [], ◌∷◌}
use arche_api.Base.Text.{Text, codes}
use arche_api.Base.Dict.{Dict}
use arche_api.Entities.{
  CanonicalStatementMetric, revenue, net_income, operating_income, basic_eps, diluted_eps,
  weighted_average_shares_diluted, total_assets, total_liabilities, total_equity,
  cash_and_cash_equivalents, net_cash_from_operating_activities, net_cash_from_investing_activities,
  net_cash_from_financing_activities, net_increase_decrease_in_cash,
}

abbrev pub canonical_metric_registry : Dict CanonicalStatementMetric (List Text)
canonical_metric_registry =
    (
      revenue,
      codes "us-gaap:Revenues"
          ∷ codes "us-gaap:SalesRevenueNet"
          ∷ codes "us-gaap:RevenuesNetOfInterestExpense"
          ∷ [],
    )
    ∷ (net_income, codes "us-gaap:NetIncomeLoss" ∷ codes "us-gaap:ProfitLoss" ∷ [])
    ∷ (operating_income, codes "us-gaap:OperatingIncomeLoss" ∷ [])
    ∷ (basic_eps, codes "us-gaap:EarningsPerShareBasic" ∷ [])
    ∷ (diluted_eps, codes "us-gaap:EarningsPerShareDiluted" ∷ [])
    ∷ (
      weighted_average_shares_diluted,
      codes "us-gaap:WeightedAverageNumberOfDilutedSharesOutstanding" ∷ [],
    )
    ∷ (total_assets, codes "us-gaap:Assets" ∷ [])
    ∷ (total_liabilities, codes "us-gaap:Liabilities" ∷ [])
    ∷ (
      total_equity,
      codes "us-gaap:StockholdersEquity"
          ∷ codes "us-gaap:StockholdersEquityIncludingPortionAttributableToNoncontrollingInterest"
          ∷ codes "us-gaap:Equity"
          ∷ [],
    )
    ∷ (
      cash_and_cash_equivalents,
      codes "us-gaap:CashAndCashEquivalentsAtCarryingValue"
          ∷ codes "us-gaap:CashCashEquivalentsAndShortTermInvestments"
          ∷ [],
    )
    ∷ (
      net_cash_from_operating_activities,
      codes "us-gaap:NetCashProvidedByUsedInOperatingActivities"
          ∷ codes "us-gaap:NetCashProvidedByUsedInOperatingActivitiesContinuingOperations"
          ∷ [],
    )
    ∷ (
      net_cash_from_investing_activities,
      codes "us-gaap:NetCashProvidedByUsedInInvestingActivities"
          ∷ codes "us-gaap:NetCashProvidedByUsedInInvestingActivitiesContinuingOperations"
          ∷ [],
    )
    ∷ (
      net_cash_from_financing_activities,
      codes "us-gaap:NetCashProvidedByUsedInFinancingActivities"
          ∷ codes "us-gaap:NetCashProvidedByUsedInFinancingActivitiesContinuingOperations"
          ∷ [],
    )
    ∷ (
      net_increase_decrease_in_cash,
      codes "us-gaap:CashAndCashEquivalentsPeriodIncreaseDecrease" ∷ [],
    )
    ∷ []
